-- ===== src/Sql/Postgres/Listen.antt =====
-- packages/apalis-sql/src/postgres.rs: the listener, and the trigger of the migrations that it
-- listens to.
use apalis_cron_jobs.Prelude.{
  ℕ, zero, suc, ◌≡◌, refl, ap, ◌∙◌, ap, String, false, List, [], ◌∷◌, ◌++◌, map, if◌then◌else◌, All,
}
use text.Mathlib.Text.{◌==◌ as str_eq}
use apalis_cron_jobs.Backend.Channel.{Channel}
use apalis_cron_jobs.Backend.Receiver.{Shared}
use apalis_cron_jobs.Backend.Notify.{new, notify}

-- `perform pg_notify('apalis::job', 'insert')`, once for each INSERT statement.
abbrev pub trigger_payload : String
trigger_payload = "insert"

abbrev pub inserts : ℕ → List String
inserts zero = []
inserts (suc n) = trigger_payload ∷ inserts n

module _ (C : Channel (Unit {0})) where
  pub record PgSubscription : Type 0 where
    pub namespace : String
    pub notify : Shared C

  -- A storage's subscription is under the namespace of its configuration.
  unfoldable pub subscribe : String → List PgSubscription → List PgSubscription
  unfolding new
  subscribe namespace subs = subs ++ record { namespace = namespace; notify = new C } ∷ []

  heard : String → PgSubscription → PgSubscription
  unfolding notify
  heard payload s =
      if str_eq s.namespace payload then record s { notify = (notify C tt s.notify).1 } else s

  -- The loop of `listen`, over the payloads of the notifications.
  pub listen : List String → List PgSubscription → List PgSubscription
  unfolding heard
  listen [] subs = subs
  listen (payload ∷ payloads) subs = listen payloads (map (heard payload) subs)

  -- INSERT statements notify no subscription, but one to a namespace that is called `insert`: that
  -- of a storage is notified of none of them, however many there are.
  pub inserts_notify_no_one :
      (n : ℕ) (subs : List PgSubscription)
      → All (λ s. str_eq s.namespace trigger_payload ≡ false) subs
      → listen (inserts n) subs ≡ subs
  unfolding listen
  inserts_notify_no_one zero subs h = refl
  inserts_notify_no_one (suc n) subs h =
      ap (listen (inserts n)) (deaf subs h) ∙ inserts_notify_no_one n subs h
    where
      deaf :
          (subs : List PgSubscription)
          → All (λ s. str_eq s.namespace trigger_payload ≡ false) subs
          → map (heard trigger_payload) subs ≡ subs
      deaf [] h = refl
      deaf (s ∷ subs) h = rw (deaf subs h.1, h.0, heard) refl
