-- ===== src/Lightning/Node/Tasks.antt =====
-- What one task keeps of the invariant.
use lightining_pass.Base.{
  false, some, ok, List, Text, ◌≡◌, ◌≢◌, ◌⊎◌, inl, inr, refl, sym, ap, subst, ◌∙◌, arith, All,
  Option-cases, Bool-cases, text_eq, text_eq_iff,
}
use mathlib.Core.Option
use mathlib.Core.Path.{subst₂}
use mathlib.Core.List.{Memᴰ}
use lightining_pass.Base.Dict
use lightining_pass.Base.Dict.{Dict, get-empty, get-insert_self, get-insert_other}
use lightining_pass.Token.Env.{TokenEnv}
use lightining_pass.Token.Compact.{sign_compact_payload}
use lightining_pass.Qr.{QrLib}
use lightining_pass.Lightning.Gateway.{PaymentEvent}
use lightining_pass.Lightning.Proof.{
  AppConfig, AccessSession, ProofService, write_session, write_index, settle, access_payload,
}
use lightining_pass.Lightning.Proof.Payments.{settle_lem}
use lightining_pass.Lightning.Node.{Task, storing, indexing, looking, paying, looked, run_task}
use lightining_pass.Lightning.Node.Runs.{Grows, pay_session-Paid, nothing, settles}
use lightining_pass.Lightning.Node.Invariant.{
  pass_of, IsBacked, bare, backed, Hashed, TaskOk, storing_ok, indexing_ok, looking_ok, paying_ok,
  Hashed-Grows,
}

module _ {V : Type 0} where
  -- What stands in a map after a write is the new value, or was there before.
  insert-cases :
      (d : Dict V) (k j : Text) (new v : V)
      → Dict.get (Dict.insert d k new) j ≡ some v
      → ((k ≡ j) × (new ≡ v)) ⊎ (Dict.get d j ≡ some v)
  insert-cases d k j new v h = elim (Bool-cases (text_eq k j)) [
    | inl e ↦
        let same = (text_eq_iff k j).0 e in
        inl (
          same,
          Option.some-injective new v (
              sym (
                subst (λ x. Dict.get (Dict.insert d k new) x ≡ some new) same
                  (get-insert_self d k new))
              ∙ h),
        )
    | inr e ↦ inr (sym (get-insert_other d k j new (differ e)) ∙ h)
  ]
    where
      differ : text_eq k j ≡ false → j ≢ k
      differ e q = ground (arith, text_eq_iff k j)

module _ (tokens : TokenEnv) (qr : QrLib) (keypair : tokens.SigningKey) (config : AppConfig) where
  insert-IsBacked :
      (paid : List Text) (sessions : Dict AccessSession) (k : Text) (new : AccessSession)
      → ((id : Text) (s : AccessSession)
          → Dict.get sessions id ≡ some s
          → IsBacked tokens qr keypair config paid s)
      → IsBacked tokens qr keypair config paid new
      → (id : Text) (s : AccessSession) → Dict.get (Dict.insert sessions k new) id ≡ some s
      → IsBacked tokens qr keypair config paid s
  insert-IsBacked paid sessions k new old b id s h = elim (insert-cases sessions k id new s h) [
    | inl (same, is_new) ↦ subst (IsBacked tokens qr keypair config paid) is_new b
    | inr before ↦ old id s before
  ]

  pub run_task-same :
      (task : Task) (self : ProofService tokens qr)
      → ((run_task tokens qr task self).0.keypair ≡ self.keypair)
        × ((run_task tokens qr task self).0.config ≡ self.config)
  unfolding run_task write_session write_index
  run_task-same (storing session) self = (refl, refl)
  run_task-same (indexing session) self = (refl, refl)
  run_task-same (looking event) self = (refl, refl)
  run_task-same (paying event id) self = elim (pay_session-Paid tokens qr self event id) [
    | nothing e ↦ (ap (λ x. x.keypair) e, ap (λ x. x.config) e)
    | settles session session' stored waiting done e ↦ (ap (λ x. x.keypair) e, ap (λ x. x.config) e)
  ]

  same_pass :
      (self : ProofService tokens qr) (event : PaymentEvent) (session session' : AccessSession)
      → self.config.event_id ≡ config.event_id
      → event.payment_hash ≡ session'.payment_hash
      → session'.expires_at ≡ session.expires_at
      → access_payload tokens qr self event session ≡ pass_of tokens qr keypair config session'
  same_pass self event session session' e e' e'' = ground arith

  -- A session that is settled for its own payment hash is backed.
  settle-IsBacked :
      (self : ProofService tokens qr) (event : PaymentEvent) (paid : List Text)
      → (session session' : AccessSession) → self.keypair ≡ keypair
      → self.config ≡ config
      → session.payment_hash ≡ event.payment_hash
      → Memᴰ event.payment_hash paid
      → settle tokens qr self event session ≡ ok session'
      → IsBacked tokens qr keypair config paid session'
  settle-IsBacked self event paid session session' same_key same_config own m done =
      let (e1, e2, e3, token, e4, signed) = settle_lem tokens qr self event session session' done in
      let hash : event.payment_hash ≡ session'.payment_hash = sym (e3 ∙ own) in
      backed token e1 e4 (subst (λ h. Memᴰ h paid) hash m) (
        subst₂ (λ k p. sign_compact_payload tokens p k ≡ ok token) same_key
          (same_pass self event session session' (ap (λ c. c.event_id) same_config) hash e2) signed)

  pub run_task-IsBacked :
      (task : Task) (self : ProofService tokens qr) (paid : List Text)
      → self.keypair ≡ keypair
      → self.config ≡ config
      → ((id : Text) (s : AccessSession)
          → Dict.get self.sessions id ≡ some s
          → IsBacked tokens qr keypair config paid s)
      → TaskOk tokens qr keypair config paid self.sessions task
      → (id : Text) (s : AccessSession)
      → Dict.get (run_task tokens qr task self).0.sessions id ≡ some s
      → IsBacked tokens qr keypair config paid s
  unfolding run_task write_session write_index
  run_task-IsBacked _ self paid same_key same_config old (storing_ok {session} e e') =
      insert-IsBacked paid self.sessions session.invoice_id session old (bare e e')
  run_task-IsBacked _ self paid same_key same_config old (indexing_ok h) = old
  run_task-IsBacked _ self paid same_key same_config old (looking_ok m) = old
  run_task-IsBacked _ self paid same_key same_config old (paying_ok {event} {id} m (s, h, own)) =
      elim (pay_session-Paid tokens qr self event id) [
        | nothing e ↦
            subst
              (λ x.
                (j : Text) (t : AccessSession)
                → Dict.get x.sessions j ≡ some t
                → IsBacked tokens qr keypair config paid t)
              (sym e) old
        | settles session session' stored waiting done e ↦
            let mine : session.payment_hash ≡ event.payment_hash =
              ap (λ x. x.payment_hash) (Option.some-injective session s (sym stored ∙ h)) ∙ own in
            subst
              (λ x.
                (j : Text) (t : AccessSession)
                → Dict.get x.sessions j ≡ some t
                → IsBacked tokens qr keypair config paid t)
              (sym e)
              (insert-IsBacked paid self.sessions id session' old
                (settle-IsBacked self event paid session session' same_key same_config mine m done))
      ]

  pub run_task-index :
      (task : Task) (self : ProofService tokens qr) (paid : List Text)
      → Grows self.sessions (run_task tokens qr task self).0.sessions
      → ((hash id : Text)
          → Dict.get self.payment_index hash ≡ some id
          → Hashed tokens qr keypair config self.sessions id hash)
      → TaskOk tokens qr keypair config paid self.sessions task
      → (hash id : Text) → Dict.get (run_task tokens qr task self).0.payment_index hash ≡ some id
      → Hashed tokens qr keypair config (run_task tokens qr task self).0.sessions id hash
  unfolding run_task write_session write_index
  run_task-index _ self paid g old (storing_ok {session} e e') hash id h =
      Hashed-Grows tokens qr keypair config self.sessions _ g id hash (old hash id h)
  run_task-index _ self paid g old (indexing_ok {session} stored) hash id h =
      elim (insert-cases self.payment_index session.payment_hash hash session.invoice_id id h) [
        | inl (same, is_id) ↦
            subst₂ (λ i x. Hashed tokens qr keypair config self.sessions i x) is_id same stored
        | inr before ↦ old hash id before
      ]
  run_task-index _ self paid g old (looking_ok m) hash id h = old hash id h
  run_task-index _ self paid g old (paying_ok {event} {id = k} m stored) hash id h =
      Hashed-Grows tokens qr keypair config self.sessions _ g id hash
        (old hash id (sym (ap (λ d. Dict.get d hash) (same_index self event k)) ∙ h))
    where
      same_index :
          (self : ProofService tokens qr) (event : PaymentEvent) (k : Text)
          → (run_task tokens qr (paying event k) self).0.payment_index ≡ self.payment_index
      same_index self event k = elim (pay_session-Paid tokens qr self event k) [
        | nothing e ↦ ap (λ x. x.payment_index) e
        | settles session session' stored waiting done e ↦ ap (λ x. x.payment_index) e
      ]

  -- What is left of a task is in order.
  pub run_task-TaskOk :
      (task : Task) (self : ProofService tokens qr) (paid : List Text)
      → ((hash id : Text)
          → Dict.get self.payment_index hash ≡ some id
          → Hashed tokens qr keypair config self.sessions id hash)
      → TaskOk tokens qr keypair config paid self.sessions task
      → All
          (TaskOk tokens qr keypair config paid (run_task tokens qr task self).0.sessions)
          (run_task tokens qr task self).1
  unfolding run_task write_session write_index looked
  run_task-TaskOk _ self paid index (storing_ok {session} e e') =
      (indexing_ok (session, get-insert_self self.sessions session.invoice_id session, refl), tt)
  run_task-TaskOk _ self paid index (indexing_ok h) = tt
  run_task-TaskOk _ self paid index (looking_ok {event} m) =
      elim (Option-cases (Dict.get self.payment_index event.payment_hash)) [
        | inl e ↦ rw e tt
        | inr (id, e) ↦ rw e (paying_ok m (index event.payment_hash id e), tt)
      ]
  run_task-TaskOk _ self paid index (paying_ok m h) = tt
