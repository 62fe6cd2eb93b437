-- ===== src/Runner/Master/Survives/Handled.antt =====
-- Messages of workers: which of them the listener of the master does not survive.
use mathlib.Core.Logic.{◌⊎◌}
use locust.Base.{
  ℕ, ◌≡◌, refl, Bool, true, false, not, Option, none, some, arith, Bool-cases, inl, inr,
}
use locust.Base.Dict.{contains}
use locust.Runner.Master.{Config, Master, check_stopped}
use locust.Runner.Master.Invariant.{
  IsConfig, IsMaster, Follows, Survives, Follows-self, Shares-Follows, get_worker_index-Follows,
  check_stopped-Follows,
}
use locust.Runner.Master.Messages.{
  Content, client_ready, locustfile, client_stopped, heartbeat, stats_report, spawning_begun,
  spawning_complete, logs, quitting, exception_raised, other, Message, log_exception,
  on_client_stopped, on_stats, on_spawning, on_spawning_complete, on_quit, on_locustfile, handle,
  handle_message,
}
use locust.Runner.Master.Survives.{without, without-IsMaster, Stays, stays_lem, without-Stays}
use locust.Runner.Master.Survives.Cases.{
  on_client_ready-Survives, on_client_stopped-Survives, on_quit-Survives, on_heartbeat-Survives,
  on_stats-Survives, on_spawning-Survives, on_spawning_complete-Survives, on_logs-Survives,
}

-- The messages that end the listener: that spawning is complete, from a worker that is not known,
-- and a request for locustfiles where there are none.
abbrev pub ends_listener : Config → Content → (node_id : ℕ) → Master → Bool
ends_listener c locustfile id m = not c.has_locustfiles
ends_listener c (spawning_complete counts) id m = not (contains id m.clients)
ends_listener c _ id m = false

module _ (c : Config) (at : ℕ → ℕ) where
  -- A worker that is not known cannot leave.
  leave-Stays :
      (id : ℕ) (m : Master) (o : Option Master)
      → IsMaster m
      → (contains id m.clients ≡ true
          → Follows (without id m) (without id m)
          → Survives (without id m) o)
      → (contains id m.clients ≡ false → Survives m o)
      → Stays m o
  leave-Stays id m o v known unknown = elim (Bool-cases (contains id m.clients)) [
    | inl e ↦ without-Stays id m o (known e (Follows-self (without id m) (without-IsMaster id m v)))
    | inr e ↦ stays_lem m o (unknown e)
  ]

  handle-Stays :
      (content : Content) (msg : Message) (m : Master)
      → IsConfig c
      → IsMaster m
      → ends_listener c content msg.node_id m ≡ false
      → Stays m (handle c at content msg m)
  unfolding handle on_locustfile on_client_stopped on_quit log_exception
  handle-Stays content msg m config v h =
      let f = Follows-self m v in
      let settled = λ (m' : Master). λ (g : Follows m m').
        stays_lem m (some (check_stopped m')) (check_stopped-Follows m m' g) in
      elim content
          as (λ k. ends_listener c k msg.node_id m ≡ false → Stays m (handle c at k msg m)) [
            | client_ready true ↦
                λ h. stays_lem m _ (on_client_ready-Survives c at m msg.client_id m config f)
            | client_ready false ↦ λ h. (v, λ id i e. e)
            | locustfile ↦ λ h.
                let e : c.has_locustfiles ≡ true = ground (arith, h) in
                rw (e, on_locustfile) (v, λ id i e. e)
            | client_stopped ↦ λ h.
                leave-Stays msg.node_id m _ v
                  (λ e g. on_client_stopped-Survives c at msg m config g e)
                  (λ e. rw (e, on_client_stopped) f)
            | heartbeat state usage memory ↦
                λ h. stays_lem m _ (on_heartbeat-Survives c at m msg state usage memory m config f)
            | stats_report report counts ↦ λ h.
                stays_lem m (on_stats c at msg.node_id report counts m)
                  (on_stats-Survives c at m msg.node_id report counts m f)
            | spawning_begun ↦ λ h.
                stays_lem m (on_spawning c at msg.node_id m)
                  (on_spawning-Survives c at m msg.node_id m f)
            | spawning_complete counts ↦ λ h.
                stays_lem m _
                  (on_spawning_complete-Survives c at m msg.node_id counts m (ground (arith, h)) f)
            | logs id log ↦ λ h. stays_lem m _ (on_logs-Survives c at m id log m f)
            | quitting ↦ λ h.
                leave-Stays msg.node_id m _ v
                  (λ e g. on_quit-Survives c at msg.node_id m config g e)
                  (λ e. rw (e, on_quit) (check_stopped-Follows m m f))
            | exception_raised key text traceback ↦
                λ h. settled _ (Shares-Follows f (refl, refl, refl, refl, λ r. r))
            | other ↦ λ h. settled _ (get_worker_index-Follows m msg.node_id m f)
          ]
        h

  ended_listener :
      (content : Content) (msg : Message) (m : Master)
      → ends_listener c content msg.node_id m ≡ true
      → handle c at content msg m ≡ none
  unfolding handle on_locustfile on_spawning_complete
  ended_listener locustfile msg m h = ground (arith, h)
  ended_listener (spawning_complete counts) msg m h = ground (arith, h)
  ended_listener _ msg m h = absurd (ground (arith, h))

  -- A valid master, the rate of which is positive where a test spawns or runs, and that was created
  -- with some weighted user class and classes of different names, handles a message from any address and naming any worker. The listener ends by an exception
  -- exactly where the message is that spawning is complete, from a worker that is not registered, or
  -- asks for locustfiles where there are none. Otherwise a valid master is left, in which the index
  -- of each worker is what it was.
  pub handle_message-Stays :
      (msg : Message) (m : Master)
      → IsConfig c
      → IsMaster m
      → ((ends_listener c msg.content msg.node_id m ≡ true) × (handle_message c at msg m ≡ none))
        ⊎ ((ends_listener c msg.content msg.node_id m ≡ false)
            × Stays m (handle_message c at msg m))
  unfolding handle_message
  handle_message-Stays msg m config v =
      elim (Bool-cases (ends_listener c msg.content msg.node_id m)) [
        | inl e ↦ inl (e, ended_listener msg.content msg m e)
        | inr e ↦ inr (e, handle-Stays msg.content msg m config v e)
      ]
