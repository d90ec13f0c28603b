-- ===== src/AgentManager/Handler/Isolation.antt =====
-- What one agent connection can do: internal/agent_manager/handler.go.
use dst_go_backend.Base.{
  ℕ, ◌≡◌, ◌≢◌, refl, ◌∙◌, String, none, some, List, [], ◌∷◌, ◌++◌, arith, ==_iff, Option-cases,
  Bool-cases, inl, inr, str_eq, lookup, Option,
}
use dst_go_backend.Protocol.{Envelope, Ack, Log}
use dst_go_backend.Protocol
use dst_go_backend.Protocol.MsgType
use dst_go_backend.AgentManager.Hub.{Hub, finish}
use dst_go_backend.AgentManager.Hub.System.{finishes, step}
use dst_go_backend.AgentManager.Hub.Ownership.{IsOwned, step-IsOwned}
use dst_go_backend.AgentManager.Hub.Operations.{view, at_rest, finish_lem}
use dst_go_backend.AgentManager.Service.{
  Service, Report, acked, logged, resulted, lost, handle_ack, handle_log, handle_result,
}
use dst_go_backend.AgentManager.Handler.{Decoder, Frame, dispatch, read_loop}

abbrev pub reporter : Report → ℕ
reporter (acked server id ack) = server
reporter (logged server id line) = server
reporter (resulted server id res) = server
reporter (lost server id reason) = server

-- Every report is about the server.
abbrev pub OnlyOf : ℕ → List Report → Type 0
OnlyOf server [] = Unit
OnlyOf server (r ∷ rs) = (reporter r ≡ server) × OnlyOf server rs

OnlyOf-append :
    (server : ℕ) (rs qs : List Report)
    → OnlyOf server rs
    → OnlyOf server qs
    → OnlyOf server (rs ++ qs)
OnlyOf-append server [] qs h k = k
OnlyOf-append server (r ∷ rs) qs h k = (h.0, OnlyOf-append server rs qs h.1 k)

-- What a change of the service by the agent of one server leaves alone.
pub record Confined (server : ℕ) (s : Service) (rs : List Report) (s' : Service) : Type 0 where
  pub owned : IsOwned (at_rest s'.hub)
  pub others : (m : ℕ) → server ≢ m → view m s'.hub ≡ view m s.hub
  pub about : OnlyOf server rs

finish-IsOwned :
    (server : ℕ) (id : String) (h : Hub)
    → IsOwned (at_rest h)
    → IsOwned (at_rest (finish server id h).0)
unfolding finish
finish-IsOwned server id h v = elim (Option-cases (lookup server h.conns)) [
  | inl e ↦ rw e v
  | inr (a, e) ↦ rw e (unfold step in step-IsOwned (finishes server a id) (at_rest h) v)
]

finish-Confined :
    (server : ℕ) (id : String) (rs : List Report) (s : Service)
    → IsOwned (at_rest s.hub)
    → OnlyOf server rs
    → Confined server s rs (record s { hub = (finish server id s.hub).0 })
finish-Confined server id rs s v about = record {
  owned = finish-IsOwned server id s.hub v;
  others = λ m ne. ground (arith, finish_lem server m id s.hub v, ==_iff server m);
  about = about;
}

idle-Confined :
    (server : ℕ) (rs : List Report) (s : Service)
    → IsOwned (at_rest s.hub)
    → OnlyOf server rs
    → Confined server s rs s
idle-Confined server rs s v about = record { owned = v; others = λ m ne. refl; about = about }

ack-Confined :
    (server : ℕ) (id : String) (ack : Ack) (s : Service)
    → IsOwned (at_rest s.hub)
    → let r = handle_ack server id ack s in Confined server s r.1 r.0
unfolding handle_ack
ack-Confined server id ack s v = elim (Bool-cases ack.accepted) [
  | inl is ↦ rw is (idle-Confined server _ s v (ground arith))
  | inr refused ↦ rw refused (elim (Bool-cases (finish server id s.hub).2) [
    | inl done ↦ rw done (finish-Confined server id _ s v (ground arith))
    | inr not_done ↦ rw not_done (finish-Confined server id [] s v tt)
  ])
]

log-Confined :
    (server : ℕ) (id : String) (l : Log) (s : Service)
    → IsOwned (at_rest s.hub)
    → let r = handle_log server id l s in Confined server s r.1 r.0
unfolding handle_log
log-Confined server id l s v = idle-Confined server _ s v (ground arith)

result-Confined :
    (server : ℕ) (id : String) (res : Protocol.Result) (s : Service)
    → IsOwned (at_rest s.hub)
    → let r = handle_result server id res s in Confined server s r.1 r.0
unfolding handle_result
result-Confined server id res s v = finish-Confined server id _ s v (ground arith)

module _ (decode : Decoder) (server : ℕ) where
  -- The change that a message makes, if the loop goes on.
  abbrev Within : Service → Option (Service × List Report) → Type 0
  Within s none = Unit
  Within s (some (s', rs)) = Confined server s rs s'

  dispatch-Within :
      (env : Envelope) (s : Service)
      → IsOwned (at_rest s.hub)
      → Within s (dispatch decode server env s)
  unfolding dispatch
  dispatch-Within env s v = elim (Bool-cases (str_eq env.msg_type MsgType.ping)) [
    | inl is ↦ rw is (idle-Confined server [] s v tt)
    | inr no_ping ↦ rw no_ping (elim (Bool-cases (str_eq env.msg_type MsgType.ack)) [
      | inl is ↦ rw is (elim (Option-cases (decode.ack env.payload)) [
        | inl e ↦ rw e tt
        | inr (ack, e) ↦ rw e (ack-Confined server env.id ack s v)
      ])
      | inr no_ack ↦ rw no_ack (elim (Bool-cases (str_eq env.msg_type MsgType.log)) [
        | inl is ↦ rw is (elim (Option-cases (decode.log env.payload)) [
          | inl e ↦ rw e tt
          | inr (l, e) ↦ rw e (log-Confined server env.id l s v)
        ])
        | inr no_log ↦ rw no_log (elim (Bool-cases (str_eq env.msg_type MsgType.result)) [
          | inl is ↦ rw is (elim (Option-cases (decode.result env.payload)) [
            | inl e ↦ rw e tt
            | inr (res, e) ↦ rw e (result-Confined server env.id res s v)
          ])
          | inr unknown ↦ rw unknown (idle-Confined server [] s v tt)
        ])
      ])
    ])
  ]

  -- On a hub with `IsOwned` that no thread is working on, the loop of one connection changes the
  -- pending commands of its own server only, and every report that it makes is about that server,
  -- whatever the agent sends.
  pub read_loop-Confined :
      (frames : List Frame) (s : Service)
      → IsOwned (at_rest s.hub)
      → let r = read_loop decode server frames s in Confined server s r.1 r.0
  unfolding read_loop
  read_loop-Confined [] s v = idle-Confined server [] s v tt
  read_loop-Confined (f ∷ frames) s v = elim (Bool-cases f.deadline_ok) [
    | inr late ↦ rw (late, read_loop) (idle-Confined server [] s v tt)
    | inl ready ↦ elim (Option-cases (dispatch decode server f.env s)) [
      | inl e ↦ rw (ready, e, read_loop) (idle-Confined server [] s v tt)
      | inr ((s', rs), e) ↦
          let first = rw e at (dispatch-Within f.env s v) in
          let rest = read_loop-Confined frames s' first.owned in
          rw (ready, e, read_loop)
            (record {
              owned = rest.owned;
              others = λ m ne. rest.others m ne ∙ first.others m ne;
              about = OnlyOf-append server rs _ first.about rest.about;
            })
    ]
  ]
