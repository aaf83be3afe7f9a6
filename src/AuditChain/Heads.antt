-- ===== src/AuditChain/Heads.antt =====
-- security/mongo_client.py: the chain heads, when `insert_event` counts one on.
use power_adapter_blogs.Shared.{
  ℕ, ◌+◌, String, ◌≡◌, refl, sym, ◌∙◌, inl, inr, Bool, true, false, Option, none, some, List, [],
  ◌∷◌, ◌++◌, find, update, text_eq, text_eq_iff, text_eq_refl, Bool-cases, Option-cases,
  find-append, find-update, changed, find-passes, ==-refl,
}
use mathlib.Core.Option
use power_adapter_blogs.AuditChain.Insertion.{
  Head, has_partition, is_head, sequence_of, increment, set_last_mac,
}

abbrev new_head : String → Head
new_head p = record { partition = p; sequence = 1; last_mac = none }

increment-none :
    (q : String) (hs : List Head)
    → find (has_partition q) hs ≡ none
    → increment q hs ≡ hs ++ new_head q ∷ []
unfolding increment
increment-none q hs e = rw (e, increment) refl

increment-some :
    (q : String) (hs : List Head) (h : Head)
    → find (has_partition q) hs ≡ some h
    → increment q hs
      ≡ update (has_partition q) (λ (x : Head). record x { sequence = x.sequence + 1 }) hs
unfolding increment
increment-some q hs h e = rw (e, increment) refl

absent_or :
    (p : String) (hs : List Head) (y : Head)
    → has_partition p y ≡ false
    → find (has_partition p) (hs ++ y ∷ []) ≡ find (has_partition p) hs
absent_or p hs y b = elim (Option-cases (find (has_partition p) hs)) [
  | inl e ↦ rw (find-append (has_partition p) hs y, e, b) refl
  | inr (h, e) ↦ rw (find-append (has_partition p) hs y, e) refl
]

module _ (p : String) where
  pub own_increment :
      (hs : List Head)
      → (g : Head) × (find (has_partition p) (increment p hs) ≡ some g)
        × (g.sequence ≡ sequence_of (find (has_partition p) hs) + 1)
        × (has_partition p g ≡ true)
  unfolding increment sequence_of
  own_increment hs = elim (Option-cases (find (has_partition p) hs)) [
    | inl e ↦
        let t : text_eq p p ≡ true = text_eq_refl p in
        (
          record { partition = p; sequence = 1; last_mac = none },
          rw (increment-none p hs e, find-append (has_partition p) hs (new_head p), e, t) refl,
          rw e refl,
          t,
        )
    | inr (h, e) ↦
        let t : has_partition p h ≡ true = find-passes (has_partition p) hs e in
        (
          record h { sequence = h.sequence + 1 },
          rw
              (
                increment-some p hs h e,
                find-update (has_partition p) (λ (x : Head). record x { sequence = x.sequence + 1 })
                    (has_partition p) hs (λ x. refl),
                e,
                t,
              )
              refl,
          rw e refl,
          t,
        )
  ]

  pub own_set :
      (n : ℕ) (mac : Option String) (hs : List Head) (g : Head)
      → find (has_partition p) hs ≡ some g
      → g.sequence ≡ n
      → has_partition p g ≡ true
      → find (has_partition p) (set_last_mac p n mac hs) ≡ some (record g { last_mac = mac })
  unfolding set_last_mac
  own_set n mac hs g e s t =
      rw
        (
          find-update (is_head p n) (λ (x : Head). record x { last_mac = mac }) (has_partition p) hs
              (λ x. refl),
          e,
          t,
          s,
          ==-refl n,
        )
        refl

  -- The heads of the other partitions stay.
  module _ (q : String) (other : text_eq q p ≡ false) where
    other_head : (g : Head) → has_partition p g ≡ true → has_partition q g ≡ false
    other_head g t = elim (Bool-cases (has_partition q g)) [
      | inl b ↦
          let e : q ≡ p = sym ((text_eq_iff g.partition q).0 b) ∙ (text_eq_iff g.partition p).0 t in
          absurd (absurd (let r : text_eq q p ≡ true = (text_eq_iff q p).1 e in cc))
      | inr b ↦ b
    ]

    unchanged :
        (r : Head → Bool) (f : Head → Head) (hs : List Head)
        → ((g : Head) → has_partition q g ≡ false → r g ≡ false)
        → Option.map (changed r f) (find (has_partition p) hs) ≡ find (has_partition p) hs
    unchanged r f hs h = elim (Option-cases (find (has_partition p) hs)) [
      | inl e ↦ rw e refl
      | inr (g, e) ↦ rw (e, h g (other_head g (find-passes (has_partition p) hs e))) refl
    ]

    pub other_increment :
        (hs : List Head) → find (has_partition p) (increment q hs) ≡ find (has_partition p) hs
    unfolding increment
    other_increment hs = elim (Option-cases (find (has_partition q) hs)) [
      | inl e ↦ rw (increment-none q hs e) (absent_or p hs (new_head q) other)
      | inr (h, e) ↦
          rw
            (
              increment-some q hs h e,
              find-update (has_partition q) (λ (x : Head). record x { sequence = x.sequence + 1 })
                  (has_partition p) hs (λ x. refl),
            )
            (unchanged (has_partition q) (λ (x : Head). record x { sequence = x.sequence + 1 }) hs
              (λ g b. b))
    ]

    pub other_set :
        (n : ℕ) (mac : Option String) (hs : List Head)
        → find (has_partition p) (set_last_mac q n mac hs) ≡ find (has_partition p) hs
    unfolding set_last_mac
    other_set n mac hs =
        rw
          (find-update (is_head q n) (λ (x : Head). record x { last_mac = mac }) (has_partition p)
            hs (λ x. refl))
          (unchanged (is_head q n) (λ (x : Head). record x { last_mac = mac }) hs
            (λ g b. rw b refl))
