-- ===== src/Connect/System/Replaced.antt =====
-- An operation on one bucket keeps the invariant of the whole server.
use zhibo.Prelude.{
  ℕ, ℤ, some, ◌≡◌, ◌≢◌, inl, inr, sym, ap, ◌∙◌, arith, false, ◌==◌, ==_iff, length-set, get_elem?,
  get_elem?-set,
}
use mathlib.Core.Path.{subst}
use zhibo.Connect.Heap.{Ptr, Heap}
use zhibo.Connect.Bucket.{Bucket}
use zhibo.Connect.Bucket.Invariant.{Members, IsBucket}
use zhibo.Connect.Bucket.Routines.{HasRoutines}
use zhibo.Connect.Server.{State}
use zhibo.Connect.System.{IsState, with_bucket}
use zhibo.Connect.System.Frame.{IsBucket-frame}
use zhibo.Connect.System.Effect.{Effect}

-- The channels that the other buckets have for users keep their Room and user.
abbrev pub SameElsewhere : State → ℕ → Heap → Type 0
SameElsewhere s i g =
    (j : ℕ) (c : Bucket) (u : ℤ) (x : Ptr)
    → (j == i) ≡ false
    → get_elem? s.server.buckets j ≡ some c
    → c.chs u ≡ some x
    → ((g.channels x).room ≡ (s.heap.channels x).room)
      × ((g.channels x).user_id ≡ (s.heap.channels x).user_id)

module _ (s : State) (members members' : Members) (i : ℕ) (b b' : Bucket) (g : Heap)
    (is : IsState s members) (at : get_elem? s.server.buckets i ≡ some b)
    (own : IsBucket b' g members') (effect : Effect b b' s.heap g members members')
    (same : SameElsewhere s i g) where
  -- Another bucket does not have the room that changed.
  not_theirs :
      (j : ℕ) (c : Bucket) (k : ℤ)
      → (j == i) ≡ false
      → get_elem? s.server.buckets j ≡ some c
      → c.rooms k ≢ some effect.room
  not_theirs j c k ne old e = elim effect.mine [
    | inl (l, mine) ↦
        let eq = is.apart j i c b k l effect.room old at e mine in ground (arith, ==_iff j i)
    | inr new ↦
        let lt = ((is.own j c old).at_room k effect.room e).allocated in absurd (omega arith)
  ]

  others_IsBucket :
      (j : ℕ) (c : Bucket)
      → (j == i) ≡ false
      → get_elem? s.server.buckets j ≡ some c
      → IsBucket c g members'
  others_IsBucket j c ne old =
      IsBucket-frame s.heap g members members' effect.room effect.touched c (is.own j c old)
        (λ k. not_theirs j c k ne old) (λ u x e. same j c u x ne old e)

  new_HasRoutines : HasRoutines b'
  new_HasRoutines =
      let r = is.routines i b at in
      record {
        some_routine = ground (arith, r.some_routine, effect.options);
        amount = effect.amount ∙ r.amount ∙ sym (ap (λ o. o.routine_amount) effect.options);
      }

  -- A room that the new bucket has is in no other.
  new_apart :
      (j : ℕ) (c : Bucket) (k l : ℤ) (q : Ptr)
      → get_elem? s.server.buckets j ≡ some c
      → b'.rooms k ≡ some q
      → c.rooms l ≡ some q
      → i ≡ j
  new_apart j c k l q old e f = elim (effect.rooms k q e) [
    | inl before ↦ is.apart i j b c k l q at old before f
    | inr new ↦ let lt = ((is.own j c old).at_room l q f).allocated in absurd (omega arith)
  ]

  pub with_bucket-IsState : IsState (with_bucket s i b' g) members'
  with_bucket-IsState = record {
    own = λ j c e. elim (get_elem?-set s.server.buckets i j b' e) [
      | inl (here, is_b) ↦ subst (λ (x : Bucket). IsBucket x g members') (sym is_b) own
      | inr (ne, old) ↦ others_IsBucket j c ne old
    ];
    routines = λ j c e. elim (get_elem?-set s.server.buckets i j b' e) [
      | inl (here, is_b) ↦ subst (λ (x : Bucket). HasRoutines x) (sym is_b) new_HasRoutines
      | inr (ne, old) ↦ is.routines j c old
    ];
    apart = λ j l c d k m q e f in_c in_d. elim (get_elem?-set s.server.buckets i j b' e) [
      | inl (here, is_b) ↦ elim (get_elem?-set s.server.buckets i l b' f) [
        | inl (there, is_b') ↦ here ∙ sym there
        | inr (ne, old) ↦
            here ∙ new_apart l d k m q old (ap (λ (x : Bucket). x.rooms k) (sym is_b) ∙ in_c) in_d
      ]
      | inr (ne, old) ↦ elim (get_elem?-set s.server.buckets i l b' f) [
        | inl (there, is_b') ↦
            sym (new_apart j c m k q old (ap (λ (x : Bucket). x.rooms m) (sym is_b') ∙ in_d) in_c)
            ∙ sym there
        | inr (ne', old') ↦ is.apart j l c d k m q old old' in_c in_d
      ]
    ];
    sized = is.sized ∙ sym (length-set s.server.buckets i b');
    some_bucket = is.some_bucket;
  }
