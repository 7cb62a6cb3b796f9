-- ===== src/Prelude/Text.antt =====
-- Text that the services compare by more than equality: transaction hashes and notes in
-- services/gateway/.../billing_repository.py, labels and GPU names in
-- services/control-plane/.../domain/scheduler.py. Characters are code points; lower-casing,
-- stripping and the character classes are those of ASCII text.
use Prim.Native.Char.{Char, code}
use greencompute_api.Prelude.{
  ℕ, zero, suc, ◌+◌, String, ◌≡◌, refl, ◌↔◌, arith, Bool, true, false, ◌&&◌, ◌||◌, not, List, [],
  ◌∷◌, ◌++◌, map, Option, none, some, leb, ltb, ◌==◌, nat_eq, string_eq, if◌then◌else◌, drop,
  length, ◌-◌,
}

abbrev pub codes : String → List ℕ
codes String.[] = []
codes (String.◌∷◌ c s) = code c ∷ codes s

-- The truth value of an optional text: `None` and "" are false.
abbrev pub truthy : Option String → Bool
truthy none = false
truthy (some s) = not (s == "")

lower_code : ℕ → ℕ
lower_code c = if leb 65 c && leb c 90 then c + 32 else c

-- `func.lower`, `str.lower`
unfoldable pub lower : List ℕ → List ℕ
unfolding lower_code
lower = map lower_code

is_space : ℕ → Bool
is_space c = c == 32 || (leb 9 c && leb c 13)

strip_left : String → String
unfolding is_space
strip_left String.[] = String.[]
strip_left (String.◌∷◌ c s) = if is_space (code c) then strip_left s else String.◌∷◌ c s

prepend_trimmed : Char → String → String
unfolding is_space
prepend_trimmed c String.[] = if is_space (code c) then String.[] else String.◌∷◌ c String.[]
prepend_trimmed c (String.◌∷◌ d s) = String.◌∷◌ c (String.◌∷◌ d s)

strip_right : String → String
unfolding prepend_trimmed
strip_right String.[] = String.[]
strip_right (String.◌∷◌ c s) = prepend_trimmed c (strip_right s)

-- `str.strip`
unfoldable pub strip : String → String
unfolding strip_left strip_right
strip s = strip_right (strip_left s)

-- `s[:n]`
pub first_chars : ℕ → String → String
first_chars zero s = String.[]
first_chars (suc n) String.[] = String.[]
first_chars (suc n) (String.◌∷◌ c s) = String.◌∷◌ c (first_chars n s)

-- `s or None`
abbrev pub or_none : String → Option String
or_none s = if s == "" then none else some s

-- `(note or "").strip()[:1000] or None`
unfoldable pub clean_note : Option String → Option String
unfolding strip first_chars
clean_note none = none
clean_note (some note) = or_none (first_chars 1000 (strip note))

unfoldable pub same_text : List ℕ → List ℕ → Bool
same_text [] [] = true
same_text (c ∷ s) (d ∷ t) = c == d && same_text s t
same_text _ _ = false

starts_with : List ℕ → List ℕ → Bool
starts_with s [] = true
starts_with [] (d ∷ t) = false
starts_with (c ∷ s) (d ∷ t) = c == d && starts_with s t

ends_with : List ℕ → List ℕ → Bool
unfolding same_text
ends_with s t = leb (length t) (length s) && same_text (drop (length s - length t) s) t

-- `tx_hash.strip().lower()`
unfoldable pub clean_tx : String → List ℕ
unfolding lower strip
clean_tx tx = lower (codes (strip tx))

-- `func.lower(deposit_ref).like(f"manual:%:{tx}")`, with `tx` cleaned and its wildcards escaped.
unfoldable pub is_manual_ref : String → String → Bool
unfolding clean_tx starts_with ends_with
is_manual_ref tx ref =
    let r = lower (codes ref) in
    starts_with r (codes "manual:") && ends_with (drop 7 r) (codes ":" ++ clean_tx tx)

-- `func.lower(tx_hash) == (tx or "").strip().lower()`
unfoldable pub is_same_tx : String → Option String → Bool
unfolding clean_tx same_text
is_same_tx tx none = false
is_same_tx tx (some stored) = same_text (lower (codes stored)) (clean_tx tx)

manual_ref_found : is_manual_ref " 0xAb " "manual:usdt-eth:0xAB" ≡ true
unfolding is_manual_ref
manual_ref_found = refl

manual_ref_other : is_manual_ref "0xab" "manual:tao:0xabc" ≡ false
unfolding is_manual_ref
manual_ref_other = refl

abbrev prepend_char : Char → List String → List String
prepend_char c [] = String.◌∷◌ c String.[] ∷ []
prepend_char c (w ∷ ws) = String.◌∷◌ c w ∷ ws

-- `s.split(",")`
pub split_commas : String → List String
split_commas String.[] = String.[] ∷ []
split_commas (String.◌∷◌ c s) =
    let rest = split_commas s in if code c == 44 then String.[] ∷ rest else prepend_char c rest

any_same : List ℕ → List String → Bool
unfolding lower strip same_text
any_same kind [] = false
any_same kind (w ∷ ws) =
    (not (strip w == "") && same_text (lower (codes (strip w))) kind) || any_same kind ws

any_filled : List String → Bool
unfolding strip
any_filled [] = false
any_filled (w ∷ ws) = not (strip w == "") || any_filled ws

-- `{k.strip().lower() for k in label.split(",") if k.strip()}` is empty, or holds `kind`.
unfoldable pub allows_kind : String → String → Bool
unfolding split_commas any_same any_filled
allows_kind label kind =
    let words = split_commas label in not (any_filled words) || any_same (codes kind) words

is_alnum : ℕ → Bool
is_alnum c = (leb 97 c && leb c 122) || (leb 48 c && leb c 57)

keep_alnum : List ℕ → List ℕ
unfolding is_alnum
keep_alnum [] = []
keep_alnum (c ∷ s) = if is_alnum c then c ∷ keep_alnum s else keep_alnum s

-- `"".join(ch for ch in raw.lower() if ch.isalnum())`
unfoldable pub alnum_lower : String → List ℕ
unfolding keep_alnum lower
alnum_lower raw = keep_alnum (lower (codes raw))

unfoldable pub is_one_of : List ℕ → List String → Bool
unfolding alnum_lower same_text
is_one_of text [] = false
is_one_of text (m ∷ ms) = same_text text (alnum_lower m) || is_one_of text ms

-- The spellings of one card are one name; a kind is a whole word of the label, not a part of one.
gpu_spellings : is_one_of (alnum_lower "RTX 4090") ("rtx-4090" ∷ []) ≡ true
unfolding is_one_of
gpu_spellings = refl

whole_words : (allows_kind "tripod" "pod" ≡ false) × (allows_kind " inference, Pod " "pod" ≡ true)
unfolding allows_kind
whole_words = (refl, refl)

occurs : List ℕ → List ℕ → Bool
unfolding starts_with
occurs p [] = starts_with [] p
occurs p (c ∷ s) = starts_with (c ∷ s) p || occurs p s

-- `part in message`, for a message already in lower case.
unfoldable pub mentions : String → List ℕ → Bool
unfolding occurs
mentions part message = occurs (codes part) message

mentions_found : mentions "lease" (lower (codes "The LEASE ended")) ≡ true
unfolding mentions occurs starts_with lower lower_code
mentions_found = refl

mentions_absent : mentions "lease" (lower (codes "upstream timeout")) ≡ false
unfolding mentions occurs starts_with lower lower_code
mentions_absent = refl

-- `s.startswith(prefix)`
unfoldable pub is_prefix_of : String → String → Bool
unfolding starts_with
is_prefix_of prefix s = starts_with (codes s) (codes prefix)

-- `s <= t`, by code points.
unfoldable pub text_leb : List ℕ → List ℕ → Bool
text_leb [] t = true
text_leb (c ∷ s) [] = false
text_leb (c ∷ s) (d ∷ t) = ltb c d || (c == d && text_leb s t)

pub same_text_iff : (s t : List ℕ) → (same_text s t ≡ true) ↔ (s ≡ t)
unfolding same_text
same_text_iff [] [] = (λ _. refl, λ _. refl)
same_text_iff [] (d ∷ t) = (λ e. absurd (cc), λ e. absurd (cc))
same_text_iff (c ∷ s) [] = (λ e. absurd (cc), λ e. absurd (cc))
same_text_iff (c ∷ s) (d ∷ t) = ground (arith, same_text_iff s t)
