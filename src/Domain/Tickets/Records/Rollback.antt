-- ===== src/Domain/Tickets/Records/Rollback.antt =====
-- src/domain/tickets/ticket.ts: where an attempt rolls back to, whatever is committed after it.
use toaa.Base.{
  ℕ, true, false, List, [], ◌∷◌, none, some, ◌≡◌, refl, ap, ◌∙◌, arith, Memᴰ, find, if◌then◌else◌,
  or_else, or_option, Option,
}
use mathlib.Core.List.{reverse-append}
use toaa.Domain.Tickets.Types.{TicketCommit, baseline}
use toaa.Domain.Tickets.Ticket.{Ticket}
use toaa.Domain.Tickets.Records.{
  starts_attempt, revision_of, append_ticket_commit, attempt_baseline_revision,
}

-- The Ticket with further commits recorded.
abbrev pub append_all : Ticket → List TicketCommit → Ticket
append_all t [] = t
append_all t (commit ∷ commits) = append_all (append_ticket_commit t commit) commits

attempt_baseline-append :
    (t : Ticket) (c : TicketCommit) (number : ℕ)
    → attempt_baseline_revision (append_ticket_commit t c) number
      ≡ (if starts_attempt number c then some c.revision else attempt_baseline_revision t number)
unfolding attempt_baseline_revision append_ticket_commit
attempt_baseline-append t c number =
    ap (λ commits. revision_of (find (starts_attempt number) commits))
      (reverse-append t.commits (c ∷ []))
    ∙ ground arith

rollback-kept :
    (t : Ticket) (later : List TicketCommit) (number : ℕ) {revision : ℕ}
    → attempt_baseline_revision t number ≡ some revision
    → ((c : TicketCommit) → Memᴰ c later → starts_attempt number c ≡ false)
    → attempt_baseline_revision (append_all t later) number ≡ some revision
rollback-kept t [] number h other = h
rollback-kept t (c ∷ cs) number h other =
    rollback-kept (append_ticket_commit t c) cs number
      (attempt_baseline-append t c number ∙ rw (other c (Memᴰ.head refl)) h)
      (λ d i. other d (Memᴰ.tail i))

baseline-kept :
    (t : Ticket) (later : List TicketCommit) {revision : ℕ}
    → t.baseline_revision ≡ some revision
    → (append_all t later).baseline_revision ≡ some revision
unfolding append_ticket_commit
baseline-kept t [] h = h
baseline-kept t (c ∷ cs) h = baseline-kept (append_ticket_commit t c) cs (rw h refl)

or_option-some : (o : Option ℕ) (n : ℕ) → or_option o (some n) ≡ some (or_else o n)
or_option-some none n = refl
or_option-some (some m) n = refl

first_baseline :
    (t : Ticket) (start : TicketCommit)
    → start.kind ≡ baseline
    → (append_ticket_commit t start).baseline_revision
      ≡ some (or_else t.baseline_revision start.revision)
unfolding append_ticket_commit
first_baseline t start kind = rw kind (or_option-some t.baseline_revision start.revision)

-- Once the baseline of an attempt is recorded, that attempt rolls back to it whatever is committed
-- later, where no later commit is a baseline of the same attempt. Unwinding the whole Ticket returns
-- to the baseline that it had before, and to this one if it had none.
pub attempt_baseline_revision-append_all :
    (t : Ticket) (start : TicketCommit) (later : List TicketCommit)
    → start.kind ≡ baseline
    → ((c : TicketCommit) → Memᴰ c later → starts_attempt start.attempt c ≡ false)
    → (attempt_baseline_revision (append_all t (start ∷ later)) start.attempt ≡ some start.revision)
      × ((append_all t (start ∷ later)).baseline_revision
          ≡ some (or_else t.baseline_revision start.revision))
unfolding append_ticket_commit
attempt_baseline_revision-append_all t start later kind other =
    let is_start : starts_attempt start.attempt start ≡ true = rw kind (ground arith) in
    (
      rollback-kept (append_ticket_commit t start) later start.attempt
          (attempt_baseline-append t start start.attempt ∙ rw is_start refl) other,
      baseline-kept (append_ticket_commit t start) later (first_baseline t start kind),
    )
