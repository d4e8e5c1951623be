-- ===== src/Lightning/Node/Runs.antt =====
-- What one task may change of the stored sessions.
use lightining_pass.Base.{
  List, [], ◌∷◌, false, Option, none, some, ok, Text, ◌≡◌, ◌≢◌, inl, inr, refl, sym, ap, subst, ◌∙◌,
  arith, Result-cases, Option-cases, Bool-cases, text_eq, text_eq_iff,
}
use mathlib.Core.Option
use lightining_pass.Base.Dict
use lightining_pass.Base.Dict.{Dict, get-insert_self, get-insert_other}
use lightining_pass.Token.Env.{TokenEnv}
use lightining_pass.Qr.{QrLib}
use lightining_pass.Lightning.Gateway.{PaymentEvent}
use lightining_pass.Lightning.Proof.{
  AccessSession, pending, settled, ProofService, write_session, write_index, pay_session, settle,
  after_settle,
}
use lightining_pass.Lightning.Proof.Payments.{InvoiceStatus-cases, settle_lem}
use lightining_pass.Lightning.Node.{
  Statement, connect, bind, set_handler, serve, Node, execute, advance, Task, storing, indexing,
  looking, paying, run_task, IsFresh,
}

-- A session later on: of the same payment and expiry, and unchanged once it is settled.
pub record Continues (s s' : AccessSession) : Type 0 where
  pub same_hash : s'.payment_hash ≡ s.payment_hash
  pub same_expiry : s'.expires_at ≡ s.expires_at
  pub settled_kept : s.status ≡ settled → s' ≡ s

pub Continues-refl : (s : AccessSession) → Continues s s
Continues-refl s = record { same_hash = refl; same_expiry = refl; settled_kept = λ h. refl }

pub Continues-trans : (s t u : AccessSession) → Continues s t → Continues t u → Continues s u
Continues-trans s t u c d = record {
  same_hash = d.same_hash ∙ c.same_hash;
  same_expiry = d.same_expiry ∙ c.same_expiry;
  settled_kept = λ h.
      d.settled_kept (subst (λ x. x.status ≡ settled) (sym (c.settled_kept h)) h)
      ∙ c.settled_kept h;
}

-- Every stored session is still there, and continues.
abbrev pub Grows : Dict AccessSession → Dict AccessSession → Type 0
Grows a b =
    (id : Text) (s : AccessSession)
    → Dict.get a id ≡ some s
    → (s' : AccessSession) × (Dict.get b id ≡ some s') × Continues s s'

pub Grows-refl : (a : Dict AccessSession) → Grows a a
Grows-refl a id s h = (s, h, Continues-refl s)

pub Grows-trans : (a b c : Dict AccessSession) → Grows a b → Grows b c → Grows a c
Grows-trans a b c g g' id s h =
    let (t, h', c') = g id s h in
    let (u, h'', c'') = g' id t h' in (u, h'', Continues-trans s t u c' c'')

none-ne-some : (s : AccessSession) → ◌≢◌ {A = Option AccessSession} none (some s)
none-ne-some s h = ground arith

insert_fresh-Grows :
    (a : Dict AccessSession) (k : Text) (new : AccessSession)
    → Dict.get a k ≡ none
    → Grows a (Dict.insert a k new)
insert_fresh-Grows a k new fresh id s h = (
  s,
  get-insert_other a k id new (λ e. none-ne-some s (sym fresh ∙ ap (Dict.get a) (sym e) ∙ h)) ∙ h,
  Continues-refl s,
)

insert_over-Grows :
    (a : Dict AccessSession) (k : Text) (old new : AccessSession)
    → Dict.get a k ≡ some old
    → Continues old new
    → Grows a (Dict.insert a k new)
insert_over-Grows a k old new stored c id s h = elim (Bool-cases (text_eq k id)) [
  | inl e ↦
      let same : k ≡ id = (text_eq_iff k id).0 e in
      let is_old : old ≡ s = Option.some-injective old s (sym stored ∙ ap (Dict.get a) same ∙ h) in
      (
        new,
        subst (λ j. Dict.get (Dict.insert a k new) j ≡ some new) same (get-insert_self a k new),
        subst (λ x. Continues x new) is_old c,
      )
  | inr e ↦ (s, get-insert_other a k id new (λ q. absurd (differ e (sym q))) ∙ h, Continues-refl s)
]
  where
    differ : text_eq k id ≡ false → k ≢ id
    differ e q = ground (arith, text_eq_iff k id)

module _ (tokens : TokenEnv) (qr : QrLib) where
  -- What `pay_session` leaves: the service as it was, or with a pending session settled.
  pub data Paid (self : ProofService tokens qr) (event : PaymentEvent) (id : Text)
      (after : ProofService tokens qr) : Type 0 where
    nothing : after ≡ self → Paid self event id after
    settles :
        (session session' : AccessSession)
        → Dict.get self.sessions id ≡ some session
        → session.status ≡ pending
        → settle tokens qr self event session ≡ ok session'
        → after ≡ record self { sessions = Dict.insert self.sessions id session' }
        → Paid self event id after

  pub pay_session-Paid :
      (self : ProofService tokens qr) (event : PaymentEvent) (id : Text)
      → Paid self event id (pay_session tokens qr self event id (Dict.get self.sessions id)).1
  unfolding pay_session after_settle settle
  pay_session-Paid self event id = elim (Option-cases (Dict.get self.sessions id)) [
    | inl e ↦ rw e (nothing refl)
    | inr (session, e) ↦ elim (InvoiceStatus-cases session.status) [
      | inl waiting ↦ elim (Result-cases (settle tokens qr self event session)) [
        | inl (session', done) ↦
            rw (e, waiting, done) (settles session session' e waiting done refl)
        | inr (m, bad) ↦ rw (e, waiting, bad) (nothing refl)
      ]
      | inr done ↦ rw (e, done) (nothing refl)
    ]
  ]

  settle-Continues :
      (self : ProofService tokens qr) (event : PaymentEvent) (session session' : AccessSession)
      → session.status ≡ pending
      → settle tokens qr self event session ≡ ok session'
      → Continues session session'
  settle-Continues self event session session' waiting done =
      let (e1, e2, e3, token, e4, signed) = settle_lem tokens qr self event session session' done in
      record { same_hash = e3; same_expiry = e2; settled_kept = λ h. absurd (ground arith) }

  -- The statements of `main` leave the service alone.
  pub advance-proof :
      (program : List Statement) (n : Node tokens qr)
      → (advance tokens qr program n).proof ≡ n.proof
  unfolding advance execute
  advance-proof [] n = refl
  advance-proof (connect ∷ rest) n = refl
  advance-proof (bind ∷ rest) n = refl
  advance-proof (set_handler ∷ rest) n = refl
  advance-proof (serve ∷ rest) n = refl

  -- No task loses a session, or changes a settled one.
  pub run_task-Grows :
      (task : Task) (self : ProofService tokens qr)
      → IsFresh tokens qr task self
      → Grows self.sessions (run_task tokens qr task self).0.sessions
  unfolding run_task IsFresh write_session write_index
  run_task-Grows (storing session) self fresh =
      insert_fresh-Grows self.sessions session.invoice_id session fresh
  run_task-Grows (indexing session) self fresh = Grows-refl self.sessions
  run_task-Grows (looking event) self fresh = Grows-refl self.sessions
  run_task-Grows (paying event id) self fresh = elim (pay_session-Paid self event id) [
    | nothing e ↦ subst (λ x. Grows self.sessions x.sessions) (sym e) (Grows-refl self.sessions)
    | settles session session' stored waiting done e ↦
        subst (λ x. Grows self.sessions x.sessions) (sym e)
          (insert_over-Grows self.sessions id session session' stored
            (settle-Continues self event session session' waiting done))
  ]
