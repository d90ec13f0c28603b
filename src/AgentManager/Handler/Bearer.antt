-- ===== src/AgentManager/Handler/Bearer.antt =====
-- `parseBearerToken` of internal/agent_manager/handler.go against what the agents send:
-- internal/agent_client/client.go sends "Bearer " and a token that was trimmed.
use Prim.Native.String.{◌++◌}
use text.Mathlib.TextLemmas.{cons-append}
use dst_go_backend.Base.{String, ◌≡◌, refl, false, arith, inl, inr, Option-cases}
use dst_go_backend.Apperr.{ok}
use dst_go_backend.Strings.{is_empty, trim_space, trim_right, cut_prefix, is_space}
use dst_go_backend.Strings.Trim.{
  cut_prefix-append, append-cut_prefix, trim_right-append, trim_right-trim_space, trim_space_idem,
}
use dst_go_backend.AgentManager.Auth.{parse_bearer_token}

-- The prefix keeps its front and, before a text that does not end blank, its end.
trim_space-bearer :
    (t : String)
    → is_empty t ≡ false
    → trim_right t ≡ t
    → trim_space ("Bearer " ++ t) ≡ "Bearer " ++ t
unfolding trim_space is_space
trim_space-bearer t full e =
    rw (trim_right-append "Bearer " t (rw e full)) (rw e (rw (cons-append ("B") ("earer ") t) refl))

bearer_full : (t : String) → is_empty ("Bearer " ++ t) ≡ false
bearer_full t = rw (cons-append ("B") ("earer ") t) refl

-- A token that the parser returns is not empty, trimmed, and what follows the scheme in the trimmed
-- header.
pub parse_bearer_token-trimmed :
    (header token : String)
    → parse_bearer_token header ≡ ok token
    → (is_empty token ≡ false)
      × (trim_space token ≡ token)
      × (rest : String) × (trim_space header ≡ "Bearer " ++ rest)
      × (token ≡ trim_space rest)
unfolding parse_bearer_token
parse_bearer_token-trimmed header token h =
    elim (Option-cases (cut_prefix "Bearer " (trim_space header))) [
      | inl e ↦ absurd (ground (arith))
      | inr (rest, e) ↦
          let read : token ≡ trim_space rest = ground arith in
          (
            ground arith,
            ground (arith, trim_space_idem rest),
            rest,
            append-cut_prefix "Bearer " (trim_space header) rest e,
            read,
          )
    ]

-- The header of an agent with any token that is not blank is read back as that token, trimmed.
pub parse_bearer_token-round_trip :
    (raw : String)
    → is_empty (trim_space raw) ≡ false
    → parse_bearer_token ("Bearer " ++ trim_space raw) ≡ ok (trim_space raw)
unfolding parse_bearer_token
parse_bearer_token-round_trip raw h =
    rw (trim_space-bearer (trim_space raw) h (trim_right-trim_space raw)) (
      rw (cut_prefix-append "Bearer " (trim_space raw))
        (rw (trim_space_idem raw) (rw (h, bearer_full (trim_space raw)))))
