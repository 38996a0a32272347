-- ===== src/Formatting/Mentions.antt =====
-- `_strip_at_mentions` of src/kefu/wecom/formatting.py: the two regular expressions, as scanners.
-- `\w` is Unicode's, a parameter.
use message_router.Prelude.{
  ℕ, zero, suc, Bool, true, false, not, ◌&&◌, ◌||◌, Option, none, some, [], ◌∷◌, ◌==◌, nat_eq,
  if◌then◌else◌, Text, lstrip, length,
}

module _ (is_word : ℕ → Bool) where
  -- `[\w.-]`
  unfoldable pub is_name_char : ℕ → Bool
  is_name_char c = is_word c || c == b'.' || c == b'-'

  -- `[\w.+-]`, which may not stand before an `@`
  unfoldable pub blocks_mention : ℕ → Bool
  unfolding is_name_char
  blocks_mention c = is_name_char c || c == b'+'

  -- `[@＠]`
  unfoldable pub is_at : ℕ → Bool
  is_at c = c == b'@' || c == 65312

  drop_name : Text → Text
  drop_name [] = []
  drop_name (c ∷ s) = let rest = drop_name s in if is_name_char c then rest else c ∷ s

  -- `\s*>`, and what is left behind it
  close_angle : Text → Option Text
  close_angle s = elim (lstrip s) [ [] ↦ none | c ∷ r ↦ if c == b'>' then some r else none ]

  -- `[\w.-]+\s*>`
  name_in_angle : Text → Option Text
  name_in_angle [] = none
  name_in_angle (c ∷ s) = if is_name_char c then close_angle (drop_name s) else none

  -- `\s*[@＠][\w.-]+\s*>`, behind a `<`
  angle_mention : Text → Option Text
  angle_mention s = elim (lstrip s) [
    | [] ↦ none
    | c ∷ r ↦ if is_at c then name_in_angle r else none
  ]

  -- `_ANGLE_MENTION_RE.sub("", s)`; each round takes a character at least, so the length is enough
  drop_angles : ℕ → Text → Text
  drop_angles zero s = []
  drop_angles (suc fuel) [] = []
  drop_angles (suc fuel) (c ∷ s) =
      let found = if c == b'<' then angle_mention s else none in
      elim found [ none ↦ c ∷ drop_angles fuel s | some rest ↦ drop_angles fuel rest ]

  starts_name : Text → Bool
  starts_name [] = false
  starts_name (c ∷ s) = is_name_char c

  -- `_AT_MENTION_RE.sub("", s)`: `inside` a mention its name's characters are dropped, and `blocked`
  -- says that the character before is one that may not stand before a mention
  drop_mentions : (inside blocked : Bool) → Text → Text
  drop_mentions inside blocked [] = []
  drop_mentions inside blocked (c ∷ s) =
      let skip = drop_mentions true true s in
      let keep = c ∷ drop_mentions false (blocks_mention c) s in
      if inside && is_name_char c
      then skip
      else if (is_at c && not blocked) && starts_name s
      then skip
      else keep

  unfoldable pub strip_at_mentions : Text → Text
  unfolding drop_angles drop_mentions angle_mention name_in_angle close_angle drop_name starts_name
  strip_at_mentions text = drop_mentions false false (drop_angles (suc (length text)) text)
