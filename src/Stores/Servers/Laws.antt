-- ===== src/Stores/Servers/Laws.antt =====
-- What a heartbeat may change, and how the columns of a row agree.
use emailjachai.Common.{
  String, ◌≡◌, ◌≢◌, refl, true, List, [], ◌∷◌, map, arith, str_eq, str_eq-false, if◌then◌else◌,
  filter, All, Bool-cases, inl, inr, ◌⊎◌, not,
}
use emailjachai.Common.Text.{trim, text_or}
use emailjachai.Stores.Servers.{
  ServerNode, WorkerHeartbeatPayload, ServerStore, beat, apply_worker_heartbeat,
}

-- Status, ping and the switch of a row agree: a row that is not disabled is active, live and enabled.
abbrev pub IsCoherent : ServerNode → Type 0
IsCoherent n =
    ((n.status ≡ "active") × (n.ping ≡ "live") × (n.config.enabled ≡ true))
    ⊎ ((n.status ≡ "disabled") × (n.ping ≡ "--"))

beat-IsCoherent : (p : WorkerHeartbeatPayload) (n : ServerNode) → IsCoherent (beat p n)
unfolding beat
beat-IsCoherent p n = ground arith

beat_name : (p : WorkerHeartbeatPayload) (n : ServerNode) → (beat p n).name ≡ n.name
unfolding beat
beat_name p n = refl

abbrev pub others : String → List ServerNode → List ServerNode
others name = filter (λ n. not (str_eq n.name name))

others-map :
    (p : WorkerHeartbeatPayload) (name : String) (ns : List ServerNode)
    → others name (map (λ n. if str_eq n.name name then beat p n else n) ns) ≡ others name ns
unfolding beat
others-map p name [] = refl
others-map p name (n ∷ ns) = ground (arith, others-map p name ns)

abbrev pub named : String → List ServerNode → List ServerNode
named name = filter (λ n. str_eq n.name name)

named-map :
    (p : WorkerHeartbeatPayload) (name : String) (ns : List ServerNode)
    → All IsCoherent (named name (map (λ n. if str_eq n.name name then beat p n else n) ns))
named-map p name [] = tt
named-map p name (n ∷ ns) = elim (Bool-cases (str_eq n.name name)) [
  | inl e ↦ rw (e, beat_name p n, e) (beat-IsCoherent p n, named-map p name ns)
  | inr e ↦ rw (e, e) (named-map p name ns)
]

-- A heartbeat with a name other than white space leaves the servers of other names as they were, in
-- their order, and each server of that name with a status, a ping and a switch that agree.
pub apply_worker_heartbeat_lem :
    (p : WorkerHeartbeatPayload) (s : ServerStore)
    → trim (text_or p.server_name "") ≢ ""
    → (others (trim (text_or p.server_name "")) (apply_worker_heartbeat p s).servers
        ≡ others (trim (text_or p.server_name "")) s.servers)
      × All IsCoherent
          (named (trim (text_or p.server_name "")) (apply_worker_heartbeat p s).servers)
unfolding apply_worker_heartbeat
apply_worker_heartbeat_lem p s n = (
  rw (str_eq-false name "" n, apply_worker_heartbeat) (others-map p name s.servers),
  rw (str_eq-false name "" n, apply_worker_heartbeat) (named-map p name s.servers),
)
  where
    name : String
    name = trim (text_or p.server_name "")
