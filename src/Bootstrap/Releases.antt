-- ===== src/Bootstrap/Releases.antt =====
-- `Run` of internal/bootstrap/app.go on every path: what it opened is closed again.
use dst_go_backend.Base.{false, List, [], ◌∷◌, ◌≡◌, ◌⊎◌, none}
use dst_go_backend.Apperr.{Result, ok, err, is_ok}
use dst_go_backend.Settings.{Config}
use dst_go_backend.Platform.Drivers.{host_port}
use dst_go_backend.Platform.Machine.{Machine, Process, Part, database, redis}
use dst_go_backend.Bootstrap.{serving_result}

abbrev pub fresh : Process
fresh = record { open_parts = []; pool = none; logger = none; listened = [] }

-- A step that opened this on top of those when it succeeded, and nothing when it failed.
abbrev Opened : Part → List Part → Process → Result (Unit {0}) × Process → Type 0
Opened part others p r =
    (r.1.listened ≡ p.listened)
    × (((r.0 ≡ ok tt) × (r.1.open_parts ≡ part ∷ others))
        ⊎ ((is_ok r.0 ≡ false) × (r.1.open_parts ≡ others)))

module _ (m : Machine) where
  -- Nothing is left open, or the database alone, and that where the driver does not give its pool.
  abbrev pub IsLeft : List Part → Type 0
  IsLeft left = (left ≡ []) ⊎ ((left ≡ database ∷ []) × (is_ok m.db_pool ≡ false))

  -- A run that failed before it listened, or that listened once, with both parts open, and returned
  -- what became of that.
  abbrev pub Ended : Config → Result (Unit {0}) × Process → Type 0
  Ended cfg r =
      let addr = host_port cfg.server.host cfg.server.port in
      ((r.1.listened ≡ []) × (is_ok r.0 ≡ false))
      ⊎ ((r.1.listened ≡ (addr, redis ∷ database ∷ []) ∷ [])
          × (r.0 ≡ serving_result (m.listen addr)))

  -- A run without settings opens nothing and fails.
  abbrev pub Released : Result Config → Result (Unit {0}) × Process → Type 0
  Released (err e) r = (r.1.open_parts ≡ []) × (r.1.listened ≡ []) × (is_ok r.0 ≡ false)
  Released (ok cfg) r = IsLeft r.1.open_parts × Ended cfg r
