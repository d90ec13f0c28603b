-- ===== src/Platform/Logger/Wrapping.antt =====
-- `TraceHandler` of internal/platform/logger/handler.go, around a handler of slog.
use dst_go_backend.Base.{String, Option, List, [], ◌∷◌, ◌≡◌, refl}
use dst_go_backend.Apperr.{Result}
use dst_go_backend.Platform.Logger.{handle}

-- What a handler of slog does. A record is its attributes, and `write` is `Handle`.
record SlogHandler : Type 1 where
  pub Handler : Type 0
  pub write : Handler → List (String × String) → Result (Unit {0})
  pub with_attrs : Handler → List (String × String) → Handler
  pub with_group : Handler → String → Handler

record TraceHandler (g : SlogHandler) : Type 0 where
  pub handler : g.Handler

-- What a logger is asked to put on its handler: `logger.With(...)` or `logger.WithGroup(...)`.
data Derivation : Type 0 where
  attrs : List (String × String) → Derivation
  group : String → Derivation

module _ (g : SlogHandler) where
  abbrev new_trace_handler : g.Handler → TraceHandler g
  new_trace_handler h = record { handler = h }

  unfoldable trace_handle :
      TraceHandler g → Option String → List (String × String) → Result (Unit {0})
  trace_handle t trace fields = g.write t.handler (handle trace fields)

  abbrev with_attrs : TraceHandler g → List (String × String) → TraceHandler g
  with_attrs t fields = record { handler = g.with_attrs t.handler fields }

  abbrev with_group : TraceHandler g → String → TraceHandler g
  with_group t name = record { handler = g.with_group t.handler name }

  abbrev derive : List Derivation → TraceHandler g → TraceHandler g
  derive [] t = t
  derive (attrs fields ∷ rest) t = derive rest (with_attrs t fields)
  derive (group name ∷ rest) t = derive rest (with_group t name)

  abbrev derive_inner : List Derivation → g.Handler → g.Handler
  derive_inner [] h = h
  derive_inner (attrs fields ∷ rest) h = derive_inner rest (g.with_attrs h fields)
  derive_inner (group name ∷ rest) h = derive_inner rest (g.with_group h name)

  -- Whatever attributes and groups a logger is derived with, a record is written by the handler
  -- derived in the same way, with the id of the trace among its attributes.
  trace_handle-derive :
      (steps : List Derivation) (h : g.Handler) (trace : Option String)
      (fields : List (String × String))
      → trace_handle (derive steps (new_trace_handler h)) trace fields
        ≡ g.write (derive_inner steps h) (handle trace fields)
  unfolding trace_handle
  trace_handle-derive [] h trace fields = refl
  trace_handle-derive (attrs more ∷ rest) h trace fields =
      trace_handle-derive rest (g.with_attrs h more) trace fields
  trace_handle-derive (group name ∷ rest) h trace fields =
      trace_handle-derive rest (g.with_group h name) trace fields
