-- ===== src/Lightning/Node/Answered.antt =====
-- An invoice whose request has been answered: its payment is found in the index from then on.
use lightining_pass.Base.{
  ◌≡◌, ◌≢◌, refl, sym, ap, ◌∙◌, subst, arith, Bool, true, false, none, some, [], ◌∷◌, Text,
}
use lightining_pass.Base.Dict
use lightining_pass.Base.Dict.{Dict, get-insert_self, get-insert_other}
use lightining_pass.Token.Env.{TokenEnv}
use lightining_pass.Qr.{QrLib}
use lightining_pass.Lightning.Gateway.{PaymentEvent}
use lightining_pass.Lightning.Proof.{
  AccessSession, ProofService, write_session, write_index, pay_session,
}
use lightining_pass.Lightning.Node.{
  Task, storing, indexing, looking, paying, looked, Node, run_task, IsFresh, report, Step, advances,
  reports, requests, runs, Reach, here, next,
}
use lightining_pass.Lightning.Node.Runs.{advance-proof, pay_session-Paid, nothing, settles}

module _ (tokens : TokenEnv) (qr : QrLib) where
  -- Every entry of the index is still there.
  abbrev pub IsKept : Dict Text → Dict Text → Type 0
  IsKept a b = (hash id : Text) → Dict.get a hash ≡ some id → Dict.get b hash ≡ some id

  insert-IsKept :
      (a : Dict Text) (k new : Text) → Dict.get a k ≡ none → IsKept a (Dict.insert a k new)
  insert-IsKept a k new fresh hash id h = get-insert_other a k hash new (other fresh h) ∙ h
    where
      other : Dict.get a k ≡ none → Dict.get a hash ≡ some id → hash ≢ k
      other fresh h e = ground (arith, ap (Dict.get a) e)

  pay_session-index :
      (self : ProofService tokens qr) (event : PaymentEvent) (k : Text)
      → (pay_session tokens qr self event k (Dict.get self.sessions k)).1.payment_index
        ≡ self.payment_index
  pay_session-index self event k = elim (pay_session-Paid tokens qr self event k) [
    | nothing e ↦ ap (λ x. x.payment_index) e
    | settles session session' stored waiting done e ↦ ap (λ x. x.payment_index) e
  ]

  run_task-IsKept :
      (task : Task) (self : ProofService tokens qr)
      → IsFresh tokens qr task self
      → IsKept self.payment_index (run_task tokens qr task self).0.payment_index
  unfolding run_task IsFresh write_session write_index
  run_task-IsKept (storing session) self fresh hash id h = h
  run_task-IsKept (indexing session) self fresh hash id h =
      insert-IsKept self.payment_index session.payment_hash session.invoice_id fresh hash id h
  run_task-IsKept (looking event) self fresh hash id h = h
  run_task-IsKept (paying event k) self fresh hash id h =
      subst (λ x. Dict.get x hash ≡ some id) (sym (pay_session-index self event k)) h

  report-index :
      (event : PaymentEvent) (b : Bool) (n : Node tokens qr)
      → (report tokens qr event b n).proof ≡ n.proof
  unfolding report
  report-index event false n = refl
  report-index event true n = refl

  Step-IsKept :
      (n m : Node tokens qr)
      → Step tokens qr n m
      → IsKept n.proof.payment_index m.proof.payment_index
  Step-IsKept n _ advances hash id h =
      subst (λ p. Dict.get p.payment_index hash ≡ some id)
        (sym (advance-proof tokens qr n.program n)) h
  Step-IsKept n _ (reports event) hash id h =
      subst (λ p. Dict.get p.payment_index hash ≡ some id) (sym (report-index event _ n)) h
  Step-IsKept n _ (requests gateway amount description rng now session response up made) hash id h =
      h
  Step-IsKept n _ (runs before task after e fresh) hash id h =
      run_task-IsKept task n.proof fresh hash id h

  Reach-IsKept :
      (n m : Node tokens qr)
      → Reach tokens qr n m
      → IsKept n.proof.payment_index m.proof.payment_index
  Reach-IsKept n _ here hash id h = h
  Reach-IsKept n _ (next {m} {u} r st) hash id h =
      Step-IsKept m u st hash id (Reach-IsKept n m r hash id h)

  looking-found :
      (self : ProofService tokens qr) (event : PaymentEvent) (id : Text)
      → Dict.get self.payment_index event.payment_hash ≡ some id
      → (run_task tokens qr (looking event) self).1 ≡ paying event id ∷ []
  unfolding run_task looked
  looking-found self event id h = rw h refl

  indexing-index :
      (self : ProofService tokens qr) (session : AccessSession)
      → Dict.get (run_task tokens qr (indexing session) self).0.payment_index session.payment_hash
        ≡ some session.invoice_id
  unfolding run_task write_index
  indexing-index self session =
      get-insert_self self.payment_index session.payment_hash session.invoice_id

  -- Where invoice ids and payment hashes do not repeat: once the request for an invoice has run to its
  -- end, a task that looks for a payment of it finds it at any later moment, and goes on to pay it,
  -- whatever other tasks have run in between.
  pub indexing-looked :
      (n u m : Node tokens qr) (session : AccessSession) (event : PaymentEvent)
      → u.proof ≡ (run_task tokens qr (indexing session) n.proof).0
      → Reach tokens qr u m
      → event.payment_hash ≡ session.payment_hash
      → (run_task tokens qr (looking event) m.proof).1 ≡ paying event session.invoice_id ∷ []
  indexing-looked n u m session event ran r same = looking-found m.proof event session.invoice_id (
      Reach-IsKept u m r event.payment_hash session.invoice_id (
        subst (λ h. Dict.get u.proof.payment_index h ≡ some session.invoice_id) (sym same)
          (subst (λ p. Dict.get p.payment_index session.payment_hash ≡ some session.invoice_id)
            (sym ran) (indexing-index n.proof session))))
