-- ===== src/Proto/Ids/Derive/Plain.antt =====
-- What the cleaning of derive.rs leaves of the text of an endpoint id.
use mathlib.Core.List.{reverse, reverse-cons, reverse-append, reverse-reverse}
use stross.Base.{
  ℕ, ◌+◌, ◌≤◌, ◌≡◌, ◌≢◌, refl, sym, subst, ap, ap₂, ◌∙◌, Bool, true, ◌&&◌, not, [], ◌∷◌, ◌++◌,
  append_assoc, append-nil, arith, All, All-append, length, length-append, take, take_all, ◌==◌,
}
use stross.Base.Split.{Lacks}
use stross.Base.Decimal.{
  to_decimal, IsDigits, to_decimal-IsDigits, to_decimal-ne-nil, length-to_decimal-le,
}
use stross.Proto.Message.{Text}
use stross.Proto.Ids.{MediaKind, screen, EndpointId, as_str, to_wire_str, colon}
use stross.Proto.Ids.Derive.{
  is_safe, clean_byte, push_clean, clean_loop, pop_dashes, or_letter, cleaned, dash,
}

-- Safe bytes other than the dash.
abbrev pub is_plain : ℕ → Bool
is_plain b = is_safe b && not (b == dash)

abbrev pub IsPlain : Text → Type 0
IsPlain = All (λ b. is_plain b ≡ true)

clean_loop-append : (acc a b : Text) → clean_loop acc (a ++ b) ≡ clean_loop (clean_loop acc a) b
unfolding clean_loop
clean_loop-append acc [] b = refl
clean_loop-append acc (c ∷ a) b = clean_loop-append (push_clean acc (clean_byte c)) a b

push_plain : (acc : Text) (c : ℕ) → is_plain c ≡ true → push_clean acc (clean_byte c) ≡ c ∷ acc
unfolding push_clean clean_byte
push_plain acc c h = ground (arith, h)

clean_loop-plain : (acc a : Text) → IsPlain a → clean_loop acc a ≡ reverse a ++ acc
unfolding clean_loop
clean_loop-plain acc [] h = refl
clean_loop-plain acc (c ∷ a) h =
    ap (λ k. clean_loop k a) (push_plain acc c h.0)
    ∙ clean_loop-plain (c ∷ acc) a h.1
    ∙ sym (ap (λ k. k ++ acc) (reverse-cons c a) ∙ append_assoc (reverse a) (c ∷ []) acc)

reverse-IsPlain : (cs : Text) → IsPlain cs → IsPlain (reverse cs)
reverse-IsPlain [] h = tt
reverse-IsPlain (c ∷ cs) h =
    subst IsPlain (sym (reverse-cons c cs))
      (All-append (λ b. is_plain b ≡ true) (reverse cs) (c ∷ []) (reverse-IsPlain cs h.1) (h.0, tt))

push_dash : (acc : Text) → IsPlain acc → push_clean acc (clean_byte colon) ≡ dash ∷ acc
unfolding push_clean clean_byte is_safe
push_dash [] h = refl
push_dash (c ∷ acc) h = ground (arith, h.0)

pop_plain : (a b : Text) → IsPlain a → a ≢ [] → pop_dashes (a ++ b) ≡ a ++ b
unfolding pop_dashes
pop_plain [] b h n = absurd (n refl)
pop_plain (c ∷ a) b h n = ground (arith, h.0)

or_letter_full : (k d : Text) → or_letter (k ++ dash ∷ d) ≡ k ++ dash ∷ d
or_letter_full [] d = refl
or_letter_full (c ∷ k) d = refl

module _ (k d : Text) (pk : IsPlain k) (pd : IsPlain d) (full : d ≢ [])
    (short : length k + length d ≤ 40) where
  loop_kind : clean_loop [] k ≡ reverse k
  loop_kind = clean_loop-plain [] k pk ∙ append-nil (reverse k)

  loop_all : clean_loop [] (k ++ colon ∷ d) ≡ reverse d ++ dash ∷ reverse k
  unfolding clean_loop
  loop_all =
      clean_loop-append [] k (colon ∷ d)
      ∙ ap (λ a. clean_loop a (colon ∷ d)) loop_kind
      ∙ ap (λ a. clean_loop a d) (push_dash (reverse k) (reverse-IsPlain k pk))
      ∙ clean_loop-plain (dash ∷ reverse k) d pd

  reverse_full : reverse d ≢ []
  reverse_full e = full (sym (reverse-reverse d) ∙ ap reverse e)

  reversed : reverse (reverse d ++ dash ∷ reverse k) ≡ k ++ dash ∷ d
  reversed =
      reverse-append (reverse d) (dash ∷ reverse k)
      ∙ ap₂ ◌++◌ (reverse-cons dash (reverse k) ∙ ap (λ x. x ++ dash ∷ []) (reverse-reverse k))
          (reverse-reverse d)
      ∙ append_assoc k (dash ∷ []) d

  or_letter-joined : or_letter (k ++ dash ∷ d) ≡ k ++ dash ∷ d
  or_letter-joined = or_letter_full k d

  -- The text of an id keeps its parts, with a dash for the colon.
  cleaned-joined : cleaned (k ++ colon ∷ d) ≡ k ++ dash ∷ d
  unfolding cleaned
  cleaned-joined =
      ap (λ a. take 48 (or_letter (reverse (pop_dashes a)))) loop_all
      ∙ ap (λ a. take 48 (or_letter (reverse a)))
          (pop_plain (reverse d) (dash ∷ reverse k) (reverse-IsPlain d pd) reverse_full)
      ∙ ap (λ a. take 48 (or_letter a)) reversed
      ∙ ap (take 48) or_letter-joined
      ∙ take_all 48 (k ++ dash ∷ d) (omega (arith, length-append k (dash ∷ d), short))

pub IsDigits→IsPlain : (cs : Text) → IsDigits cs → IsPlain cs
unfolding is_safe
IsDigits→IsPlain [] h = tt
IsDigits→IsPlain (c ∷ cs) h = (ground (arith, h.0), IsDigits→IsPlain cs h.1)

pub IsPlain→Lacks : (cs : Text) → IsPlain cs → Lacks dash cs
IsPlain→Lacks [] h = tt
IsPlain→Lacks (c ∷ cs) h = (λ e. ground (arith, e, h.0), IsPlain→Lacks cs h.1)

pub as_str-IsPlain : (k : MediaKind) → IsPlain (as_str k)
unfolding as_str is_safe
as_str-IsPlain screen = ground arith
as_str-IsPlain _ = ground arith

length-as_str-le : (k : MediaKind) → length (as_str k) ≤ 11
unfolding as_str
length-as_str-le screen = omega arith
length-as_str-le _ = omega arith

pub digits-IsPlain : (n : ℕ) → IsPlain (to_decimal 10 n)
digits-IsPlain n = IsDigits→IsPlain (to_decimal 10 n) (to_decimal-IsDigits 10 n)

pub cleaned-to_wire_str :
    (e : EndpointId) → cleaned (to_wire_str e) ≡ as_str e.kind ++ dash ∷ to_decimal 10 e.id
unfolding to_wire_str
cleaned-to_wire_str e =
    cleaned-joined (as_str e.kind) (to_decimal 10 e.id) (as_str-IsPlain e.kind)
      (digits-IsPlain e.id) (to_decimal-ne-nil 9 e.id)
      (omega (arith, length-as_str-le e.kind, length-to_decimal-le 10 e.id))
