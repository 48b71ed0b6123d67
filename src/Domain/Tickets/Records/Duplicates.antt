-- ===== src/Domain/Tickets/Records/Duplicates.antt =====
-- src/domain/tickets/ticket.ts: the two sides of a duplicate agree.
use toaa.Base.{
  true, not, List, [], ◌∷◌, ◌++◌, Option, none, some, ok, require-ok, ok-injective, ◌≡◌, ◌≢◌, refl,
  sym, ap, subst, ◌⊎◌, inl, inr, ◌+◌, arith, ◌==◌, ==_iff, Memᴰ, Memᴰ-append_left,
  Memᴰ-append_right, any, any-Memᴰ, Bool-cases,
}
use toaa.Domain.Objects.{ObjectId, Timestamp, Digest, revise_object_envelope}
use toaa.Domain.Tickets.Types.{FailureIdentity}
use toaa.Domain.Tickets.Records.{
  BugTicket, follows_another, add_new, set_of, may_follow, link_duplicate_bugs,
}

add_new-Memᴰ :
    (id : ObjectId) (set : List ObjectId) {x : ObjectId}
    → (x ≡ id) ⊎ Memᴰ x set
    → Memᴰ x (add_new id set)
add_new-Memᴰ id set {x} i = elim (Bool-cases (any (λ y. y == id) set)) [
  | inl e ↦ rw e (elim i [
    | inr j ↦ j
    | inl same ↦
        let (y, j, named) = any-Memᴰ (λ y. y == id) set e in
        let it : y ≡ x = ground (arith, ==_iff y id) in subst (λ z. Memᴰ z set) it j
  ])
  | inr e ↦ rw e (elim i [
    | inr j ↦ Memᴰ-append_left set (id ∷ []) j
    | inl same ↦ Memᴰ-append_right set (id ∷ []) (Memᴰ.head same)
  ])
]

pub set_of-Memᴰ :
    (set ids : List ObjectId) {x : ObjectId} → Memᴰ x set ⊎ Memᴰ x ids → Memᴰ x (set_of set ids)
unfolding set_of
set_of-Memᴰ set [] (inl i) = i
set_of-Memᴰ set [] (inr i) = elim i [ ]
set_of-Memᴰ set (id ∷ ids) (inl i) =
    set_of-Memᴰ (add_new id set) ids (inl (add_new-Memᴰ id set (inr i)))
set_of-Memᴰ set (id ∷ ids) (inr (Memᴰ.head same)) =
    set_of-Memᴰ (add_new id set) ids (inl (add_new-Memᴰ id set (inl same)))
set_of-Memᴰ set (id ∷ ids) (inr (Memᴰ.tail i)) = set_of-Memᴰ (add_new id set) ids (inr i)

may_follow-cases :
    (original : ObjectId) (o : Option ObjectId)
    → may_follow original o ≡ true
    → (o ≡ none) ⊎ (o ≡ some original)
may_follow-cases original none h = inl refl
may_follow-cases original (some id) h = inr (ap (λ i. some i) ((==_iff id original).0 h))

-- What holds of an original and a duplicate before and after they are linked.
pub record IsLinked (original duplicate original' duplicate' : BugTicket) : Type 0 where
  pub distinct : original.ticket.id ≢ duplicate.ticket.id
  pub unclaimed :
      (duplicate.ticket.duplicate_of_ticket_id ≡ none)
      ⊎ (duplicate.ticket.duplicate_of_ticket_id ≡ some original.ticket.id)
  pub follows : duplicate'.ticket.duplicate_of_ticket_id ≡ some original.ticket.id
  pub listed : Memᴰ duplicate.ticket.id original'.ticket.duplicate_ticket_ids
  pub kept :
      (id : ObjectId)
      → Memᴰ id original.ticket.duplicate_ticket_ids
      → Memᴰ id original'.ticket.duplicate_ticket_ids
  pub one_write : original'.ticket.revision ≡ original.ticket.revision + 1
  pub same_write : duplicate'.ticket.revision ≡ duplicate.ticket.revision

module _ (failure_identity_key : FailureIdentity → Digest) where
  -- Two Bugs that are linked are distinct and the duplicate followed no other original before.
  -- Afterwards it follows the original, the original lists it beside all that it listed, and only
  -- the original's revision has advanced.
  pub link_duplicate_bugs-IsLinked :
      (original duplicate : BugTicket) (now : Timestamp) {original' duplicate' : BugTicket}
      → link_duplicate_bugs failure_identity_key original duplicate now ≡ ok (original', duplicate')
      → IsLinked original duplicate original' duplicate'
  unfolding link_duplicate_bugs revise_object_envelope
  link_duplicate_bugs-IsLinked o d now {original'} {duplicate'} h =
      let (apart, a) = require-ok (not (o.ticket.id == d.ticket.id)) _ h in
      let (_, b) = require-ok (o.ticket.project_id == d.ticket.project_id) _ a in
      let (_, c) =
        require-ok (o.detail.failure.target_step_id == d.detail.failure.target_step_id) _ b in
      let (_, e) =
        require-ok
          (failure_identity_key o.detail.failure.identity
            == failure_identity_key d.detail.failure.identity)
          _ c in
      let (follow, made) =
        require-ok (may_follow o.ticket.id d.ticket.duplicate_of_ticket_id)
          (follows_another d.ticket.id) e in
      let pair = ok-injective made in
      let first = ap (λ p. p.0) pair in
      let second = ap (λ p. p.1) pair in
      let ids = o.ticket.duplicate_ticket_ids in
      record {
        distinct = λ e. let same = (==_iff o.ticket.id d.ticket.id).1 e in ground arith;
        unclaimed = may_follow-cases o.ticket.id d.ticket.duplicate_of_ticket_id follow;
        follows = ap (λ x. x.ticket.duplicate_of_ticket_id) (sym second);
        listed =
            subst (λ x. Memᴰ d.ticket.id x.ticket.duplicate_ticket_ids) first
              (set_of-Memᴰ [] (ids ++ d.ticket.id ∷ [])
                (inr (Memᴰ-append_right ids _ (Memᴰ.head refl))));
        kept = λ id i.
            subst (λ x. Memᴰ id x.ticket.duplicate_ticket_ids) first
              (set_of-Memᴰ [] (ids ++ d.ticket.id ∷ []) (inr (Memᴰ-append_left ids _ i)));
        one_write = ap (λ x. x.ticket.revision) (sym first);
        same_write = ap (λ x. x.ticket.revision) (sym second);
      }
