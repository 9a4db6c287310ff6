-- ===== src/Proto/Ids/Derive/Distinct.antt =====
-- Different endpoints, profiles or rules have different stream ids.
use stross.Base.{
  ℕ, ◌<◌, ◌%◌, ◌^◌, ◌≡◌, refl, sym, ap, ◌∙◌, ◌∷◌, ◌++◌, append_assoc, Option, some, arith,
}
use stross.Base.Split.{split_eq, Lacks}
use stross.Base.Decimal.{to_decimal, from_decimal, from_decimal-to_decimal}
use stross.Proto.Message.{Text}
use stross.Proto.Ids.{MediaKind, EndpointId, as_str, from_wire, u32_bound}
use stross.Proto.Ids.Endpoint.{from_wire-as_str}
use stross.Proto.Ids.Derive.{
  ReliabilityProfile, lossless, lossy, adaptive, PickRule, realtime, strict_ordered, no_rule,
  profile_short, pick_short, id_prefix, derive_stream_id, dash, hex_word, fnv_loop,
}
use stross.Proto.Ids.Derive.Plain.{
  IsPlain→Lacks, as_str-IsPlain, digits-IsPlain, cleaned-to_wire_str,
}

profile_short-eq : (p q : ReliabilityProfile) → profile_short p ≡ profile_short q → p ≡ q
unfolding profile_short
profile_short-eq lossless lossless e = refl
profile_short-eq lossy lossy e = refl
profile_short-eq adaptive adaptive e = refl
profile_short-eq _ _ e = absurd (ground (arith, e))

pick_short-eq : (p q : PickRule) → pick_short p ≡ pick_short q → p ≡ q
unfolding pick_short
pick_short-eq realtime realtime e = refl
pick_short-eq strict_ordered strict_ordered e = refl
pick_short-eq no_rule no_rule e = refl
pick_short-eq _ _ e = absurd (ground (arith, e))

profile_short-Lacks : (p : ReliabilityProfile) → Lacks dash (profile_short p)
unfolding profile_short
profile_short-Lacks lossless = omega arith
profile_short-Lacks _ = omega arith

pick_short-Lacks : (p : PickRule) → Lacks dash (pick_short p)
unfolding pick_short
pick_short-Lacks realtime = omega arith
pick_short-Lacks _ = omega arith

join_assoc :
    (a b c d h : Text)
    → ((a ++ dash ∷ b) ++ dash ∷ (c ++ dash ∷ d)) ++ dash ∷ h
      ≡ a ++ dash ∷ (b ++ dash ∷ (c ++ dash ∷ (d ++ dash ∷ h)))
join_assoc a b c d h = simp append_assoc

abbrev hash_of : EndpointId → ReliabilityProfile → PickRule → Text
hash_of e p r = hex_word 8 (fnv_loop 0xcbf29ce484222325 (id_prefix e p r) % 2 ^ 32)

abbrev after_profile : EndpointId → ReliabilityProfile → PickRule → Text
after_profile e p r = pick_short r ++ dash ∷ hash_of e p r

abbrev after_id : EndpointId → ReliabilityProfile → PickRule → Text
after_id e p r = profile_short p ++ dash ∷ after_profile e p r

abbrev after_kind : EndpointId → ReliabilityProfile → PickRule → Text
after_kind e p r = to_decimal 10 e.id ++ dash ∷ after_id e p r

parts :
    (e : EndpointId) (p : ReliabilityProfile) (r : PickRule)
    → derive_stream_id e p r ≡ as_str e.kind ++ dash ∷ after_kind e p r
unfolding derive_stream_id id_prefix
parts e p r =
    ap (λ c. (c ++ dash ∷ (profile_short p ++ dash ∷ pick_short r)) ++ dash ∷ hash_of e p r)
      (cleaned-to_wire_str e)
    ∙ join_assoc (as_str e.kind) (to_decimal 10 e.id) (profile_short p) (pick_short r)
        (hash_of e p r)

id_eq : (m n : ℕ) → m < u32_bound → n < u32_bound → to_decimal 10 m ≡ to_decimal 10 n → m ≡ n
id_eq m n hm hn e =
    let same : ◌≡◌ {A = Option ℕ} (some m) (some n) =
      sym (from_decimal-to_decimal u32_bound 9 m hm (omega (arith, hm)))
      ∙ ap (from_decimal u32_bound) e
      ∙ from_decimal-to_decimal u32_bound 9 n hn (omega (arith, hn)) in
    ground (arith, same)

kind_eq : (k l : MediaKind) → as_str k ≡ as_str l → k ≡ l
kind_eq k l e =
    let same : some k ≡ some l = sym (from_wire-as_str k) ∙ ap from_wire e ∙ from_wire-as_str l in
    ground (arith, same)

-- Two derived ids are equal only for the same endpoint, profile and rule, the numbers of the endpoints
-- being `u32`.
pub derive_stream_id-distinct :
    (e e' : EndpointId) (p p' : ReliabilityProfile) (r r' : PickRule)
    → e.id < u32_bound
    → e'.id < u32_bound
    → derive_stream_id e p r ≡ derive_stream_id e' p' r'
    → (e ≡ e') × (p ≡ p') × (r ≡ r')
derive_stream_id-distinct e e' p p' r r' h h' same =
    let (kinds, rest) =
      split_eq dash (as_str e.kind) (as_str e'.kind) (after_kind e p r) (after_kind e' p' r')
        (IsPlain→Lacks (as_str e.kind) (as_str-IsPlain e.kind))
        (IsPlain→Lacks (as_str e'.kind) (as_str-IsPlain e'.kind))
        (sym (parts e p r) ∙ same ∙ parts e' p' r') in
    let (ids, rest') =
      split_eq dash (to_decimal 10 e.id) (to_decimal 10 e'.id) (after_id e p r) (after_id e' p' r')
        (IsPlain→Lacks (to_decimal 10 e.id) (digits-IsPlain e.id))
        (IsPlain→Lacks (to_decimal 10 e'.id) (digits-IsPlain e'.id)) rest in
    let (profiles, rest'') =
      split_eq dash (profile_short p) (profile_short p') (after_profile e p r)
        (after_profile e' p' r') (profile_short-Lacks p) (profile_short-Lacks p') rest' in
    let (picks, hashes) =
      split_eq dash (pick_short r) (pick_short r') (hash_of e p r) (hash_of e' p' r')
        (pick_short-Lacks r) (pick_short-Lacks r') rest'' in
    (
      ground (arith, kind_eq e.kind e'.kind kinds, id_eq e.id e'.id h h' ids),
      profile_short-eq p p' profiles,
      pick_short-eq r r' picks,
    )
