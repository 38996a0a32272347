-- ===== src/Formatting.antt =====
-- src/kefu/wecom/formatting.py: the bundles of items that carry an entry to a chat.
pub mod Mentions
use message_router.Prelude.{
  Bool, true, false, not, ◌&&◌, ◌||◌, Option, none, some, List, [], ◌∷◌, ◌++◌, if◌then◌else◌,
  String, Text, codes, strip, is_empty, starts_with, join, take, any, map,
}
use message_router.Models.{Uuid, PartKind, CaseEntryPart, Payload, content, media, template_card}
use message_router.Session.{Env, value_error, assertion_error}
use message_router.Session.Query
use message_router.Session.Query.{Query, gets, require, ensure}
use message_router.Session.Tx.{Tx, query, uuid4, pure, ◌>>=◌, ◌>>◌}
use message_router.Formatting.Mentions.{strip_at_mentions}
use message_router.Markers.{format_case_marker}

pub record RenderedDeliveryItem : Type 0 where
  pub kind : PartKind
  pub payload : Payload

abbrev pub quote_lines : List Text → List Text
quote_lines details = map (λ detail. codes "> " ++ detail) details

-- `format_case_message` with no `details_before`, as both callers here have it
unfoldable pub format_case_message : Text → Text → List Text → Text
format_case_message case_title body details_after =
    let head = codes "## " ++ case_title in
    let middle = codes "**" ++ body ++ codes "**" in
    let sections : List Text =
      if is_empty details_after
      then head ∷ middle ∷ []
      else head ∷ middle ∷ join (codes "\n") (quote_lines details_after) ∷ [] in
    join (codes "\n\n") sections

-- The texts of the parts, without mentions; a part of another kind has none.
unfoldable pub text_of : (Text → Text) → CaseEntryPart → List Text
text_of clean part = kind_text part.kind part.text
  where
    kind_text : PartKind → Option Text → List Text
    kind_text PartKind.text (some s) = strip (clean s) ∷ []
    kind_text _ _ = []

unfoldable pub text_parts : (Text → Text) → List CaseEntryPart → List Text
unfolding text_of
text_parts clean [] = []
text_parts clean (part ∷ rest) = text_of clean part ++ text_parts clean rest

-- The image items, in order; an image part has a `media_id` (an assertion in the source).
unfoldable pub image_item : PartKind → Option Uuid → List RenderedDeliveryItem
image_item PartKind.image (some id) = record { kind = PartKind.image; payload = media id } ∷ []
image_item _ _ = []

unfoldable pub image_items : List CaseEntryPart → List RenderedDeliveryItem
unfolding image_item
image_items [] = []
image_items (part ∷ rest) = image_item part.kind part.media_id ++ image_items rest

abbrev pub display_title : Text → Text → Text
display_title case_title customer =
    if is_empty customer || starts_with case_title (customer ++ codes " ｜ ")
    then case_title
    else case_title ++ codes " ｜ " ++ customer

unfoldable pub build_formal_bundle :
    (case_ref bug_number case_title customer_name speaker_name : Text)
    → List CaseEntryPart
    → Query (List RenderedDeliveryItem)
unfolding text_parts image_items
build_formal_bundle case_ref bug_number case_title customer_name speaker_name parts =
    Query.◌>>=◌ (format_case_marker case_ref) λ marker.
      Query.◌>>=◌ (gets (λ env db. text_parts (strip_at_mentions env.is_word) parts)) λ texts.
        Query.◌>>=◌ (ensure (any (λ t. not (is_empty t)) texts) value_error) λ _. Query.pure (
          record {
            kind = PartKind.text;
            payload = content (
                format_case_message (display_title case_title (strip customer_name))
                  (join (codes "\n") texts) (speaker_name ∷ bug_number ∷ marker ∷ []));
          }
          ∷ image_items parts)

unfoldable pub history_card :
    (case_title bug_number event_type operator_name history_url : Text) → Tx RenderedDeliveryItem
history_card case_title bug_number event_type operator_name history_url = do
  task_id ← uuid4
  pure (record {
    kind = PartKind.text;
    payload =
        template_card (take 26 case_title) (take 30 (codes "操作人：" ++ operator_name))
          (bug_number ++ codes " · " ++ event_type ++ codes " · 点击查看完整问题时间线") history_url task_id;
  })

-- The quoteable text of a notice, if it is wanted.
unfoldable pub notice_text :
    Bool
    → (case_ref bug_number case_title operator_name body : Text) → Query (List RenderedDeliveryItem)
notice_text false case_ref bug_number case_title operator_name body = Query.pure []
notice_text true case_ref bug_number case_title operator_name body =
    Query.◌>>=◌ (format_case_marker case_ref) λ marker. Query.pure (
      record {
        kind = PartKind.text;
        payload = content (
            format_case_message case_title body
              (bug_number ∷ (codes "操作人：" ++ operator_name) ∷ marker ∷ []));
      }
      ∷ [])

unfoldable pub build_notice_bundle :
    (case_ref bug_number case_title event_type operator_name body history_url : Text)
    → Bool
    → Tx (List RenderedDeliveryItem)
unfolding history_card notice_text
build_notice_bundle case_ref bug_number case_title event_type operator_name body history_url
      include_markdown =
    do
      text ← query (notice_text include_markdown case_ref bug_number case_title operator_name body)
      card ← history_card case_title bug_number event_type operator_name history_url
      pure (text ++ card ∷ [])
