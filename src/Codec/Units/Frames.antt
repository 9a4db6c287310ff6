-- ===== src/Codec/Units/Frames.antt =====
-- The builder puts a stream of pictures back together.
use stross.Base.{
  suc, ◌+◌, ◌≤◌, ◌≡◌, refl, sym, ap, ◌∙◌, List, [], ◌∷◌, ◌++◌, append_assoc, append-nil, map,
  Option, none, some, arith, length, length-append, All, Bool, true, false, leb-false, ◌==◌, ==_ne,
}
use stross.Codec.Units.{
  Nal, AccessUnit, AccessUnitBuilder, new_builder, push, finish, finished, is_slice, is_first_slice,
  is_idr,
}

abbrev listed {ℓ} : {A : Type ℓ} → Option A → List A
listed none = []
listed (some a) = a ∷ []

push_all : AccessUnitBuilder → List Nal → List AccessUnit × AccessUnitBuilder
push_all b [] = ([], b)
push_all b (nal ∷ nals) =
    let (unit, b') = push b nal in
    let (units, end) = push_all b' nals in (listed unit ++ units, end)

-- All the access units of a stream: those that `push` gives, and then that of `finish`.
unfoldable pub assemble : AccessUnitBuilder → List Nal → List AccessUnit
unfolding push_all
assemble b nals = let (units, end) = push_all b nals in units ++ listed ((finish end).0)

-- A picture as an encoder writes it: parameter sets and such, the first slice, the other slices.
pub record Picture : Type 0 where
  pub configs : List Nal
  pub first : Nal
  pub others : List Nal

pub record IsPicture (p : Picture) : Type 0 where
  pub no_slices : All (λ n. is_slice n ≡ false) p.configs
  pub few : length p.configs ≤ 32
  pub slice : is_slice p.first ≡ true
  pub first : is_first_slice p.first ≡ true
  pub slices : All (λ n. (is_slice n ≡ true) × (is_first_slice n ≡ false)) p.others

abbrev pub nals_of : Picture → List Nal
nals_of p = p.configs ++ (p.first ∷ p.others)

abbrev pub last_idr : Bool → List Nal → Bool
last_idr key [] = key
last_idr key (nal ∷ nals) = last_idr (is_idr nal) nals

abbrev pub unit_of : Picture → AccessUnit
unit_of p = record { nals = nals_of p; keyframe = last_idr (is_idr p.first) p.others }

abbrev pub stream_of : List Picture → List Nal
stream_of [] = []
stream_of (p ∷ ps) = nals_of p ++ stream_of ps

push_all-append :
    (b : AccessUnitBuilder) (xs ys : List Nal)
    → push_all b (xs ++ ys) ≡ (
      (push_all b xs).0 ++ (push_all ((push_all b xs).1) ys).0,
      (push_all ((push_all b xs).1) ys).1,
    )
unfolding push_all
push_all-append b [] ys = refl
push_all-append b (x ∷ xs) ys =
    ap (λ r. (listed ((push b x).0) ++ r.0, r.1)) (push_all-append ((push b x).1) xs ys)
    ∙ ap (λ us. (us, (push_all ((push_all ((push b x).1) xs).1) ys).1))
        (sym (append_assoc (listed ((push b x).0)) _ _))

push_config :
    (b : AccessUnitBuilder) (nal : Nal)
    → is_slice nal ≡ false
    → suc (length b.pending) ≤ 32
    → push b nal ≡ (none, record b { pending = b.pending ++ nal ∷ [] })
unfolding push
push_config b nal e few = rw (e, leb-false 32 (length b.pending) (omega (arith, few))) refl

push_first :
    (b : AccessUnitBuilder) (nal : Nal)
    → is_slice nal ≡ true
    → is_first_slice nal ≡ true
    → push b nal ≡ (
      finished b,
      record { pending = []; current = b.pending ++ nal ∷ []; keyframe = is_idr nal },
    )
unfolding push
push_first b nal e f = rw (e, f) refl

push_other :
    (b : AccessUnitBuilder) (nal : Nal)
    → is_slice nal ≡ true
    → is_first_slice nal ≡ false
    → push b nal ≡ (none, record b { current = b.current ++ nal ∷ []; keyframe = is_idr nal })
unfolding push
push_other b nal e f = rw (e, f) refl

push_configs :
    (b : AccessUnitBuilder) (nals : List Nal)
    → All (λ n. is_slice n ≡ false) nals
    → length b.pending + length nals ≤ 32
    → push_all b nals ≡ ([], record b { pending = b.pending ++ nals })
unfolding push_all
push_configs b [] h few = ap (λ p. ([], record b { pending = p })) (sym (append-nil b.pending))
push_configs b (nal ∷ nals) h few = rw (push_config b nal h.0 (omega (arith, few))) (
    push_configs (record b { pending = b.pending ++ nal ∷ [] }) nals h.1
      (omega (arith, few, length-append b.pending (nal ∷ [])))
    ∙ ap (λ p. ([], record b { pending = p })) (append_assoc b.pending (nal ∷ []) nals))

push_others :
    (b : AccessUnitBuilder) (nals : List Nal)
    → All (λ n. (is_slice n ≡ true) × (is_first_slice n ≡ false)) nals
    → push_all b nals
      ≡ ([], record b { current = b.current ++ nals; keyframe = last_idr b.keyframe nals })
unfolding push_all
push_others b [] h = ap (λ c. ([], record b { current = c })) (sym (append-nil b.current))
push_others b (nal ∷ nals) h = rw (push_other b nal h.0.0 h.0.1) (
    push_others (record b { current = b.current ++ nal ∷ []; keyframe = is_idr nal }) nals h.1
    ∙ ap (λ c. ([], record b { current = c; keyframe = last_idr (is_idr nal) nals }))
        (append_assoc b.current (nal ∷ []) nals))

abbrev holding : Picture → AccessUnitBuilder
holding p = record {
  pending = [];
  current = nals_of p;
  keyframe = last_idr (is_idr p.first) p.others;
}

abbrev between : List Nal → Bool → AccessUnitBuilder
between current key = record { pending = []; current = current; keyframe = key }

push_picture :
    (current : List Nal) (key : Bool) (p : Picture)
    → IsPicture p
    → push_all (between current key) (nals_of p)
      ≡ (listed (finished (between current key)), holding p)
unfolding push_all finished
push_picture current key p v =
    let b = between current key in
    let b1 = record b { pending = p.configs } in
    let b2 : AccessUnitBuilder = record {
      pending = [];
      current = p.configs ++ p.first ∷ [];
      keyframe = is_idr p.first;
    } in
    push_all-append b p.configs (p.first ∷ p.others)
    ∙ ap
        (λ r.
          (r.0 ++ (push_all (r.1) (p.first ∷ p.others)).0, (push_all (r.1) (p.first ∷ p.others)).1))
        (push_configs b p.configs v.no_slices (omega (arith, v.few)))
    ∙ ap (λ r. (listed r.0 ++ (push_all (r.1) p.others).0, (push_all (r.1) p.others).1))
        (push_first b1 p.first v.slice v.first)
    ∙ ap (λ r. (listed (finished b) ++ r.0, r.1)) (push_others b2 p.others v.slices)
    ∙ ap
        (λ us. (
          us,
          record b2 {
            current = b2.current ++ p.others;
            keyframe = last_idr (is_idr p.first) p.others;
          },
        ))
        (append-nil (listed (finished b)))
    ∙ ap
        (λ c. (
          listed (finished b),
          record { pending = []; current = c; keyframe = last_idr (is_idr p.first) p.others },
        ))
        (append_assoc p.configs (p.first ∷ []) p.others)

finished_filled :
    (cs : List Nal) (nal : Nal) (nals : List Nal) (key : Bool)
    → finished (between (cs ++ nal ∷ nals) key)
      ≡ some (record { nals = cs ++ nal ∷ nals; keyframe = key })
unfolding finished
finished_filled [] nal nals key = refl
finished_filled (c ∷ cs) nal nals key = refl

finished-holding : (p : Picture) → finished (holding p) ≡ some (unit_of p)
finished-holding p = finished_filled p.configs p.first p.others (last_idr (is_idr p.first) p.others)

finish-holding : (p : Picture) → (finish (holding p)).0 ≡ some (unit_of p)
unfolding finish
finish-holding p =
    let filled : (length (nals_of p) == 0) ≡ false =
      ==_ne _ _ (λ e. absurd (omega (arith, e, length-append p.configs (p.first ∷ p.others)))) in
    rw filled refl

assemble-holding :
    (ps : List Picture) (p : Picture)
    → All IsPicture ps
    → assemble (holding p) (stream_of ps) ≡ unit_of p ∷ map unit_of ps
unfolding assemble push_all
assemble-holding [] p vs = ap listed (finish-holding p)
assemble-holding (q ∷ ps) p vs =
    ap (λ r. r.0 ++ listed ((finish r.1).0))
      (push_all-append (holding p) (nals_of q) (stream_of ps))
    ∙ ap
        (λ r.
          (r.0 ++ (push_all r.1 (stream_of ps)).0)
          ++ listed ((finish (push_all r.1 (stream_of ps)).1).0))
        (push_picture (nals_of p) (last_idr (is_idr p.first) p.others) q vs.0)
    ∙ ap
        (λ u.
          (listed u ++ (push_all (holding q) (stream_of ps)).0)
          ++ listed ((finish (push_all (holding q) (stream_of ps)).1).0))
        (finished-holding p)
    ∙ ap (◌∷◌ (unit_of p)) (assemble-holding ps q vs.1)

-- A stream of pictures, each of at most 32 parameter sets and the like, a first slice and any number of
-- further slices, is put together to exactly these pictures, in order: the parameter sets go with the
-- slices behind them, and a picture is marked as a key frame exactly if its last slice is of an IDR
-- picture, whatever the earlier ones are.
pub assemble-stream_of :
    (ps : List Picture) → All IsPicture ps → assemble new_builder (stream_of ps) ≡ map unit_of ps
unfolding assemble push_all finish finished
assemble-stream_of [] vs = refl
assemble-stream_of (p ∷ ps) vs =
    ap (λ r. r.0 ++ listed ((finish r.1).0))
      (push_all-append new_builder (nals_of p) (stream_of ps))
    ∙ ap
        (λ r.
          (r.0 ++ (push_all r.1 (stream_of ps)).0)
          ++ listed ((finish (push_all r.1 (stream_of ps)).1).0))
        (push_picture [] false p vs.0)
    ∙ assemble-holding ps p vs.1
