-- ===== src/Domain/Workflow/DomainGraph/TaskDepth.antt =====
-- src/domain/workflow/domain_graph.ts, taskDepth: what its result comes to.
use toaa.Base.{
  ℕ, zero, suc, ◌+◌, ◌<◌, true, false, not, ◌&&◌, ◌||◌, List, [], ◌∷◌, Option, none, some, ◌≡◌,
  refl, sym, ap, ◌∙◌, ◌⊎◌, inl, inr, ◌↔◌, arith, ◌==◌, ==_iff, length, Memᴰ, Bool-cases,
  some-injective, find-Memᴰ, Memᴰ-reverse, reverse,
}
use toaa.Domain.Objects.{ObjectId}
use toaa.Domain.Tickets.Types.{TicketType}
use toaa.Domain.Tickets.Ticket.{Ticket, ticket_type}
use toaa.Domain.Workflow.Dependencies.{has, by_id}
use toaa.Domain.Workflow.DomainGraph.{
  ticket_id, is_story, is_task, parent_of, climb, task_depth, is_too_deep,
}

-- The parent of a task: a story, or a task that is not below a third one.
abbrev pub HoldsTask : List Ticket → Ticket → Type 0
HoldsTask tickets p =
    (is_story (ticket_type p) ≡ true)
    ⊎ ((is_task (ticket_type p) ≡ true)
        × ((q : Ticket)
            → parent_of tickets p.parent_ticket_id ≡ some q
            → is_task (ticket_type q) ≡ false))

not_both : (x : TicketType) → is_task x ≡ true → is_story x ≡ false
not_both TicketType.epic h = refl
not_both TicketType.story h = absurd (cc h)
not_both TicketType.task h = refl
not_both TicketType.bug h = refl
not_both TicketType.enhancement h = refl
not_both TicketType.change_request h = refl

-- From the third task on the result is more than two.
climb-deep :
    (fuel : ℕ) (tickets : List Ticket) (seen : List ObjectId) (depth : ℕ) (current : Option Ticket)
    → 2 < depth
    → is_too_deep (climb fuel tickets seen depth current) ≡ true
unfolding climb
climb-deep zero tickets seen depth current h = refl
climb-deep (suc fuel) tickets seen depth none h = ground arith
climb-deep (suc fuel) tickets seen depth (some t) h = elim (Bool-cases (is_task (ticket_type t))) [
  | inl e ↦ elim (Bool-cases (has t.id seen)) [
    | inl f ↦ rw (climb, e, f) refl
    | inr f ↦
        rw (climb, e, f)
          (climb-deep fuel tickets (t.id ∷ seen) (depth + 1) (parent_of tickets t.parent_ticket_id)
            (omega arith))
  ]
  | inr e ↦ rw (climb, e) (ground arith)
]

abbrev EndsThere : Option Ticket → Type 0
EndsThere o = (q : Ticket) → o ≡ some q → is_task (ticket_type q) ≡ false

climb-third :
    (fuel : ℕ) (tickets : List Ticket) (seen : List ObjectId) (o : Option Ticket)
    → (is_too_deep (climb (suc fuel) tickets seen 2 o) ≡ false) ↔ EndsThere o
unfolding climb
climb-third fuel tickets seen none = (λ h q e. cc, λ h. refl)
climb-third fuel tickets seen (some q) = elim (Bool-cases (is_task (ticket_type q))) [
  | inl e ↦ (
    λ h.
        let deep : is_too_deep (climb (suc fuel) tickets seen 2 (some q)) ≡ true =
          elim (Bool-cases (has q.id seen)) [
            | inl f ↦ rw (climb, e, f) refl
            | inr f ↦
                rw (climb, e, f)
                  (climb-deep fuel tickets (q.id ∷ seen) 3 (parent_of tickets q.parent_ticket_id)
                    (omega arith))
          ] in
        absurd (cc),
    λ h. let not_a_task = h q refl in absurd (cc),
  )
  | inr e ↦ (λ h q' same. rw (← some-injective same) e, λ h. rw (climb, e) refl)
]

-- At the parent of a task.
climb-second :
    (fuel : ℕ) (tickets : List Ticket) (t p : Ticket)
    → is_task (ticket_type p) ≡ true
    → (p.id == t.id) ≡ false
    → (is_too_deep (climb (suc (suc fuel)) tickets (t.id ∷ []) 1 (some p)) ≡ false)
      ↔ EndsThere (parent_of tickets p.parent_ticket_id)
unfolding climb
climb-second fuel tickets t p e ne =
    let unseen : has p.id (t.id ∷ []) ≡ false = ground arith in
    rw (climb, e, unseen)
      (climb-third fuel tickets (p.id ∷ t.id ∷ []) (parent_of tickets p.parent_ticket_id))

named_parent :
    (tickets : List Ticket) (o : Option ObjectId) {p : Ticket}
    → parent_of tickets o ≡ some p
    → Memᴰ p tickets
named_parent tickets none h = absurd (cc h)
named_parent tickets (some id) h =
    let (i, _) = find-Memᴰ (λ x. x.id == id) (reverse tickets) h in Memᴰ-reverse tickets i

abbrev Named : List Ticket → Type 0
Named tickets = (t : Ticket) → Memᴰ t tickets → by_id ticket_id tickets t.id ≡ some t

-- A task that is its own parent.
own_parent :
    (tickets : List Ticket) (t p : Ticket)
    → Named tickets
    → Memᴰ t tickets
    → parent_of tickets t.parent_ticket_id ≡ some p
    → (p.id == t.id) ≡ true
    → p ≡ t
own_parent tickets t p named i parent e =
    let same_id = (==_iff p.id t.id).0 e in
    some-injective (
      sym (named p (named_parent tickets t.parent_ticket_id parent))
      ∙ ap (by_id ticket_id tickets) same_id
      ∙ named t i)

task_depth-parent :
    (tickets : List Ticket) (t p : Ticket)
    → Memᴰ t tickets
    → Named tickets
    → is_task (ticket_type t) ≡ true
    → parent_of tickets t.parent_ticket_id ≡ some p
    → is_task (ticket_type p) ≡ true
    → (is_too_deep (task_depth tickets t) ≡ false)
      ↔ EndsThere (parent_of tickets p.parent_ticket_id)
unfolding task_depth
task_depth-parent [] t p i named e parent f = elim i [ ]
task_depth-parent (x ∷ xs) t p i named e parent f = elim (Bool-cases (p.id == t.id)) [
  | inl s ↦
      let it = own_parent (x ∷ xs) t p named i parent s in
      let again : has p.id (t.id ∷ []) ≡ true = ground arith in
      (
        λ h.
            let deep : is_too_deep (task_depth (x ∷ xs) t) ≡ true =
              rw (task_depth, climb, e, parent, f, again) refl in
            absurd (cc),
        λ h.
            let no_task : is_task (ticket_type t) ≡ false =
              h t (ap (λ y. parent_of (x ∷ xs) y.parent_ticket_id) it ∙ parent ∙ ap some it) in
            absurd (cc),
      )
  | inr s ↦ rw (task_depth, climb, e, parent) (climb-second (length xs) (x ∷ xs) t p f s)
]

task_depth-story :
    (tickets : List Ticket) (t p : Ticket)
    → is_task (ticket_type t) ≡ true
    → parent_of tickets t.parent_ticket_id ≡ some p
    → is_task (ticket_type p) ≡ false
    → is_too_deep (task_depth tickets t) ≡ false
unfolding task_depth climb
task_depth-story tickets t p e parent f = rw (task_depth, climb, e, parent, f) refl

-- The check of a task is passed exactly below a parent that holds it.
pub task_check_iff :
    (tickets : List Ticket) (t p : Ticket)
    → Memᴰ t tickets
    → Named tickets
    → is_task (ticket_type t) ≡ true
    → parent_of tickets t.parent_ticket_id ≡ some p
    → ((not (is_story (ticket_type p)) && not (is_task (ticket_type p))
          || is_too_deep (task_depth tickets t))
        ≡ false)
      ↔ HoldsTask tickets p
task_check_iff tickets t p i named e parent = elim (Bool-cases (is_task (ticket_type p))) [
  | inl f ↦
      let no_story = not_both (ticket_type p) f in
      let depth = task_depth-parent tickets t p i named e parent f in
      rw (no_story, f)
        (λ h. inr (refl, depth.0 h), λ h. elim h [ inl g ↦ absurd (cc) | inr (_, g) ↦ depth.1 g ])
  | inr f ↦ elim (Bool-cases (is_story (ticket_type p))) [
    | inl g ↦
        let shallow = task_depth-story tickets t p e parent f in
        rw (f, g, shallow) (λ h. inl refl, λ h. refl)
    | inr g ↦ rw (f, g) (λ h. absurd (cc), λ h. absurd (elim h [ inl k ↦ cc | inr (k, _) ↦ cc ]))
  ]
]
