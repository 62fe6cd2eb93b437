-- ===== src/Runner/Master/Survives/Cases.antt =====
-- The cases of `handle_message`, one by one: none raises an exception but for a message that
-- spawning is complete from a worker that is not registered.
use locust.Base.{
  if_lem, ℕ, ◌≡◌, refl, true, not, Option, none, some, ltb, arith, Option-cases, inl, inr, ◌&&◌,
}
use locust.Base.Dict.{Dict, lookup, contains}
use locust.Stats.Requests.{Report, on_worker_report}
use locust.Runner.{RunState, missing, is_state, Client, new_client, heartbeat_liveness}
use locust.Runner.Master.{Config, Master, ack, heartbeat_reply, get_worker_index, send, stop}
use locust.Runner.Master.Invariant.{
  IsConfig, Follows, Survives, bind-Survives, Shares-Follows, get_worker_index-Follows,
  stop-Follows, check_stopped-Follows,
}
use locust.Runner.Master.Starts.{join-Survives, lose-Survives, rebalance-Survives}
use locust.Runner.Master.Messages.{
  Message, with_client, on_client_ready, on_client_stopped, note_cpu, heard, on_heartbeat, on_stats,
  on_spawning, on_spawning_complete, on_logs, seems_last, end_if_last, on_quit,
}
use locust.Runner.Master.Survives.{with_client-Follows, without, quit-Follows}

module _ (c : Config) (at : ℕ → ℕ) where
  pub on_client_ready-Survives :
      (m0 : Master) (id : ℕ) (m : Master)
      → IsConfig c
      → Follows m0 m
      → Survives m0 (on_client_ready c at id m)
  unfolding on_client_ready send
  on_client_ready-Survives m0 id m config f =
      let m1 = (get_worker_index id m).1 in
      let acked : Follows m0 (send (ack id (get_worker_index id m).0) m1) =
        Shares-Follows (get_worker_index-Follows m0 id m f) (refl, refl, refl, refl, λ r. r) in
      bind-Survives m0 _ _
        (join-Survives c m0 at (new_client c.host_of id) _ config
          (with_client-Follows (new_client c.host_of id) acked))
        (λ m2 g.
          bind-Survives m0 _ _ (rebalance-Survives c m0 at m2 config g)
            (λ m3 h. check_stopped-Follows m0 m3 h))

  pub end_if_last-Follows : (m0 m : Master) → Follows m0 m → Follows m0 (end_if_last c at m)
  unfolding end_if_last
  end_if_last-Follows m0 m f =
      if_lem (Follows m0) (not (seems_last c at m.clients)) (λ e. check_stopped-Follows m0 m f)
        (λ e.
          if_lem (Follows m0) c.headless
            (λ e. quit-Follows m0 (stop true m) (stop-Follows m0 true m f))
            (λ e. check_stopped-Follows m0 (stop true m) (stop-Follows m0 true m f)))

  -- A worker that leaves, and what is done then.
  pub on_client_stopped-Survives :
      (msg : Message) (m : Master)
      → IsConfig c
      → Follows (without msg.node_id m) (without msg.node_id m)
      → contains msg.node_id m.clients ≡ true
      → Survives (without msg.node_id m) (on_client_stopped c at msg m)
  unfolding on_client_stopped
  on_client_stopped-Survives msg m config f e =
      let m0 = without msg.node_id m in
      rw (e, on_client_stopped)
        (bind-Survives m0 _ _ (lose-Survives c m0 at msg.node_id m0 config f)
          (λ m1 g. check_stopped-Follows m0 _ (get_worker_index-Follows m0 msg.client_id m1 g)))

  pub on_quit-Survives :
      (id : ℕ) (m : Master)
      → IsConfig c
      → Follows (without id m) (without id m)
      → contains id m.clients ≡ true
      → Survives (without id m) (on_quit c at id m)
  unfolding on_quit
  on_quit-Survives id m config f e =
      let m0 = without id m in
      rw (e, on_quit)
        (bind-Survives m0 _ _ (lose-Survives c m0 at id m0 config f)
          (λ m1 g. end_if_last-Follows m0 _ (get_worker_index-Follows m0 id m1 g)))

  pub note_cpu-Follows :
      (m0 : Master) (usage : ℕ) (x : Client) (m : Master)
      → Follows m0 m
      → Follows m0 (note_cpu c at usage x m)
  unfolding note_cpu
  note_cpu-Follows m0 usage x m f =
      if_lem (Follows m0) (not x.cpu_warning_emitted && ltb 90 usage)
        (λ e. with_client-Follows _ (
          get_worker_index-Follows m0 x.id (record m { worker_cpu_warning_emitted = true })
            (Shares-Follows f (refl, refl, refl, refl, λ r. r))))
        (λ e. with_client-Follows _ f)

  pub on_heartbeat-Survives :
      (m0 : Master) (msg : Message) (state : RunState) (usage : ℕ) (memory : Option ℕ) (m : Master)
      → IsConfig c
      → Follows m0 m
      → Survives m0 (on_heartbeat c at msg state usage memory m)
  unfolding on_heartbeat send
  on_heartbeat-Survives m0 msg state usage memory m config f =
      elim (Option-cases (lookup msg.node_id m.clients)) [
        | inl e ↦ rw (e, on_heartbeat) (check_stopped-Follows m0 m f)
        | inr (x, e) ↦
            let alive = record x { heartbeat = heartbeat_liveness } in
            rw (e, on_heartbeat)
              (bind-Survives m0 _ _
                (if_lem (Survives m0) (is_state x.state missing)
                  (λ e.
                    join-Survives c m0 at alive (with_client alive m) config
                      (with_client-Follows alive f))
                  (λ e. with_client-Follows alive f))
                (λ m1 g.
                  let x' = heard c at state memory alive in
                  check_stopped-Follows m0
                    (send (heartbeat_reply msg.node_id) (note_cpu c at usage x' m1))
                    (Shares-Follows (note_cpu-Follows m0 usage x' m1 g)
                      (refl, refl, refl, refl, λ r. r))))
      ]

  pub on_stats-Survives :
      (m0 : Master) (id : ℕ) (report : Report) (counts : Dict ℕ) (m : Master)
      → Follows m0 m
      → Survives m0 (on_stats c at id report counts m)
  unfolding on_stats on_worker_report
  on_stats-Survives m0 id report counts m f = elim (Option-cases (lookup id m.clients)) [
    | inl e ↦
        rw (e, on_stats)
          (check_stopped-Follows m0 _ (Shares-Follows f (refl, refl, refl, refl, λ r. r)))
    | inr (x, e) ↦
        rw (e, on_stats)
          (check_stopped-Follows m0 _
            (with_client-Follows _ (Shares-Follows f (refl, refl, refl, refl, λ r. r))))
  ]

  pub on_spawning-Survives :
      (m0 : Master) (id : ℕ) (m : Master) → Follows m0 m → Survives m0 (on_spawning c at id m)
  unfolding on_spawning send
  on_spawning-Survives m0 id m f = elim (Option-cases (lookup id m.clients)) [
    | inl e ↦
        rw (e, on_spawning)
          (check_stopped-Follows m0 _ (Shares-Follows f (refl, refl, refl, refl, λ r. r)))
    | inr (x, e) ↦ rw (e, on_spawning) (check_stopped-Follows m0 _ (with_client-Follows _ f))
  ]

  pub on_spawning_complete-Survives :
      (m0 : Master) (id : ℕ) (counts : Dict ℕ) (m : Master)
      → contains id m.clients ≡ true
      → Follows m0 m
      → Survives m0 (on_spawning_complete c at id counts m)
  unfolding on_spawning_complete
  on_spawning_complete-Survives m0 id counts m known f = elim (Option-cases (lookup id m.clients)) [
    | inl e ↦ ground (arith, e, known)
    | inr (x, e) ↦
        rw (e, on_spawning_complete) (check_stopped-Follows m0 _ (with_client-Follows _ f))
  ]

  pub on_logs-Survives :
      (m0 : Master) (id : Option ℕ) (log : ℕ) (m : Master)
      → Follows m0 m
      → Survives m0 (on_logs c at id log m)
  unfolding on_logs
  on_logs-Survives m0 none log m f = check_stopped-Follows m0 m f
  on_logs-Survives m0 (some id) log m f =
      check_stopped-Follows m0 _ (Shares-Follows f (refl, refl, refl, refl, λ r. r))
