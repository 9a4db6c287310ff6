-- ===== src/Playback/Schedule/Watermark.antt =====
-- The watermark: `drop_over_watermark` takes late entries off the back of the queue only.
use stross.Base.{
  ℕ, suc, ◌+◌, ◌≤◌, ◌<◌, ◌≡◌, refl, sym, ap, subst, ◌∙◌, List, [], ◌∷◌, ◌++◌, Option, none, some,
  arith, leb, length, length-append, All, Bool-cases, inl, inr, leb→le, leb_false→lt,
}
use mathlib.Core.List.{reverse, reverse_aux, reverse-cons, reverse-append, reverse-reverse}
use stross.Playback.Schedule.{PlaybackScheduler, Queued, drop_back, drop_over_watermark}
use stross.Playback.Schedule.Invariant.{IsScheduler, Scheduled, OnClock}

abbrev FrontWithin : ℕ → List Queued → Type 0
FrontWithin horizon [] = Unit {0}
FrontWithin horizon (q ∷ qs) = q.play_at ≤ horizon

-- `queue` is what is kept followed by what is dropped; every entry dropped plays later than `horizon`,
-- and the last one kept does not.
pub record CutsBack (horizon : ℕ) (queue kept : List Queued) (dropped : ℕ) : Type 0 where
  pub back : List Queued
  pub whole : kept ++ back ≡ queue
  pub late : All (λ q. horizon < q.play_at) back
  pub count : dropped ≡ length back
  pub last : FrontWithin horizon (reverse kept)

record DropsFront (horizon : ℕ) (qs rest : List Queued) (dropped : ℕ) : Type 0 where
  front : List Queued
  whole : front ++ rest ≡ qs
  late : All (λ q. horizon < q.play_at) front
  count : dropped ≡ length front
  next : FrontWithin horizon rest

drop_back-DropsFront :
    (horizon : ℕ) (qs : List Queued)
    → DropsFront horizon qs ((drop_back horizon qs).0) ((drop_back horizon qs).1)
unfolding drop_back
drop_back-DropsFront horizon [] = record {
  front = [];
  whole = refl;
  late = tt;
  count = refl;
  next = tt;
}
drop_back-DropsFront horizon (q ∷ qs) = elim (Bool-cases (leb q.play_at horizon)) [
  | inl near ↦
      rw near (record { front = []; whole = refl; late = tt; count = refl; next = leb→le _ _ near })
  | inr far ↦
      let d = drop_back-DropsFront horizon qs in
      rw far (record {
        front = q ∷ d.front;
        whole = ap (◌∷◌ q) d.whole;
        late = (leb_false→lt _ _ far, d.late);
        count = ap suc d.count;
        next = d.next;
      })
]

All-reverse_aux :
    (P : Queued → Type 0) (qs acc : List Queued) → All P qs → All P acc → All P (reverse_aux qs acc)
All-reverse_aux P [] acc h k = k
All-reverse_aux P (q ∷ qs) acc h k = All-reverse_aux P qs (q ∷ acc) h.1 (h.0, k)

length-reverse_aux : (qs acc : List Queued) → length (reverse_aux qs acc) ≡ length qs + length acc
length-reverse_aux [] acc = omega arith
length-reverse_aux (q ∷ qs) acc = omega (arith, length-reverse_aux qs (q ∷ acc))

-- `drop_over_watermark` cuts the queue at the back: exactly the entries behind the last one that plays
-- within the target delay from now are dropped, and their number is reported.
pub drop_over_watermark-CutsBack :
    (s : PlaybackScheduler) (now : ℕ)
    → CutsBack
        (now + s.target_delay)
        s.queue
        ((drop_over_watermark s now).1.queue)
        ((drop_over_watermark s now).0)
unfolding drop_over_watermark
drop_over_watermark-CutsBack s now =
    let d = drop_back-DropsFront (now + s.target_delay) (reverse s.queue) in
    record {
      back = reverse d.front;
      whole = sym (reverse-append d.front _) ∙ ap reverse d.whole ∙ reverse-reverse s.queue;
      late = All-reverse_aux _ d.front [] d.late tt;
      count = omega (arith, d.count, length-reverse_aux d.front []);
      last = subst (FrontWithin (now + s.target_delay)) (sym (reverse-reverse _)) d.next;
    }

All-prefix : (P : Queued → Type 0) (xs ys : List Queued) → All P (xs ++ ys) → All P xs
All-prefix P [] ys h = tt
All-prefix P (x ∷ xs) ys h = (h.0, All-prefix P xs ys h.1)

Scheduled-prefix :
    (a t : Option ℕ) (jump : ℕ) (xs ys : List Queued)
    → Scheduled a t jump (xs ++ ys)
    → Scheduled a t jump xs
Scheduled-prefix none t jump [] ys h = refl
Scheduled-prefix none t jump (q ∷ xs) ys h = cc
Scheduled-prefix (some p0) none jump [] ys h = refl
Scheduled-prefix (some p0) none jump (q ∷ xs) ys h = cc
Scheduled-prefix (some p0) (some t0) jump xs ys h = All-prefix (OnClock p0 t0 jump) xs ys h

-- Dropping at the watermark keeps a scheduler well-formed: the clock, the bound and the accounting.
pub drop_over_watermark-IsScheduler :
    (s : PlaybackScheduler) (now : ℕ) → IsScheduler s → IsScheduler ((drop_over_watermark s now).1)
unfolding drop_over_watermark
drop_over_watermark-IsScheduler s now v =
    let d = drop_over_watermark-CutsBack s now in
    let all = length-append ((drop_over_watermark s now).1.queue) d.back in
    let whole = ap length d.whole in
    record {
      scheduled =
          Scheduled-prefix s.anchor_pts s.anchor_at s.jump_reset _ d.back
            (subst (Scheduled s.anchor_pts s.anchor_at s.jump_reset) (sym d.whole) v.scheduled);
      bounded = omega (arith, v.bounded, all, whole);
      counted = omega (arith, v.counted, all, whole, d.count);
    }

-- Entries in the order of their release times.
abbrev pub Ascending : List Queued → Type 0
Ascending [] = Unit {0}
Ascending (q ∷ qs) = All (λ r. q.play_at ≤ r.play_at) qs × Ascending qs

All-end : (P : Queued → Type 0) (xs : List Queued) (q : Queued) → All P (xs ++ q ∷ []) → P q
All-end P [] q a = a.0
All-end P (x ∷ xs) q a = All-end P xs q a.1

All-last :
    (h : ℕ) (xs : List Queued) (q : Queued)
    → Ascending (xs ++ q ∷ [])
    → q.play_at ≤ h
    → All (λ r. r.play_at ≤ h) (xs ++ q ∷ [])
All-last h [] q a l = (l, tt)
All-last h (x ∷ xs) q a l =
    (omega (arith, l, All-end (λ r. x.play_at ≤ r.play_at) xs q a.0), All-last h xs q a.1 l)

Ascending-prefix : (xs ys : List Queued) → Ascending (xs ++ ys) → Ascending xs
Ascending-prefix [] ys a = tt
Ascending-prefix (x ∷ xs) ys a =
    (All-prefix (λ r. x.play_at ≤ r.play_at) xs ys a.0, Ascending-prefix xs ys a.1)

All-within :
    (h : ℕ) (qs : List Queued)
    → FrontWithin h qs
    → Ascending (reverse qs)
    → All (λ r. r.play_at ≤ h) (reverse qs)
All-within h [] f a = tt
All-within h (q ∷ qs) f a =
    subst (All (λ r. r.play_at ≤ h)) (sym (reverse-cons q qs))
      (All-last h (reverse qs) q (subst Ascending (reverse-cons q qs) a) f)

-- In a queue that ascends, no frame left after the watermark plays later than the target delay from now.
pub drop_over_watermark-Ascending :
    (s : PlaybackScheduler) (now : ℕ)
    → Ascending s.queue
    → All (λ q. q.play_at ≤ now + s.target_delay) ((drop_over_watermark s now).1.queue)
drop_over_watermark-Ascending s now a =
    let d = drop_over_watermark-CutsBack s now in
    let kept = (drop_over_watermark s now).1.queue in
    let up = Ascending-prefix kept d.back (subst Ascending (sym d.whole) a) in
    subst (All (λ q. q.play_at ≤ now + s.target_delay)) (reverse-reverse kept) (
      All-within (now + s.target_delay) (reverse kept) d.last
        (subst Ascending (sym (reverse-reverse kept)) up))
