-- ===== src/Markers.antt =====
-- src/kefu/case_desk/markers.py: the reference of an issue, seven characters of Crockford's Base32,
-- and the marker that carries it in a message.
pub mod Normalized
use message_router.Prelude.{
  ℕ, zero, suc, ◌-◌, Bool, ◌&&◌, [], ◌∷◌, ◌++◌, ◌==◌, nat_eq, leb, ltb, if◌then◌else◌, Text, codes,
  strip, length, any, all,
}
use message_router.Session.{validation_error, value_error}
use message_router.Session.Query.{Query, pure, ensure, gets, ◌>>=◌, ◌>>◌}
use message_router.Session.Tx
use message_router.Session.Tx.{Tx, draw, query}

-- "0123456789ABCDEFGHJKMNPQRSTVWXYZ"
abbrev pub crockford_alphabet : Text
crockford_alphabet = codes "0123456789ABCDEFGHJKMNPQRSTVWXYZ"

abbrev pub default_case_ref_length : ℕ
default_case_ref_length = 7

-- `c in CROCKFORD_ALPHABET`
unfoldable pub is_crockford : ℕ → Bool
is_crockford c = any (λ d. c == d) crockford_alphabet

-- `str.upper` of one character: ASCII letters here, the others by Unicode's table.
unfoldable pub upper_char : (ℕ → Text) → ℕ → Text
upper_char table c =
    if leb b'a' c && leb c b'z' then (c - 32) ∷ [] else if ltb c 128 then c ∷ [] else table c

unfoldable pub upper : (ℕ → Text) → Text → Text
unfolding upper_char
upper table [] = []
upper table (c ∷ s) = upper_char table c ++ upper table s

unfoldable pub normalize_case_ref : Text → Query Text
normalize_case_ref case_ref = do
  normalized ← gets (λ env db. upper env.upper (strip case_ref))
  ensure (length normalized == default_case_ref_length) validation_error
  ensure (all is_crockford normalized) validation_error
  pure normalized

unfoldable pub format_case_marker : Text → Query Text
format_case_marker case_ref = do
  normalized ← normalize_case_ref case_ref
  pure (codes "〔KF·" ++ normalized ++ codes "〕")

-- `secrets.choice(CROCKFORD_ALPHABET)`: the character at the index that was drawn
unfoldable pub char_at : Text → ℕ → ℕ
char_at [] i = 0
char_at (c ∷ s) zero = c
char_at (c ∷ s) (suc i) = char_at s i

unfoldable pub draw_chars : ℕ → Tx Text
draw_chars zero = Tx.pure []
draw_chars (suc n) =
    Tx.◌>>=◌ draw λ i. Tx.◌>>=◌ (draw_chars n) λ rest. Tx.pure (char_at crockford_alphabet i ∷ rest)

unfoldable pub new_case_ref : ℕ → Tx Text
unfolding draw_chars
new_case_ref length = Tx.◌>>◌ (query (ensure (leb 1 length) value_error)) (draw_chars length)
