-- ===== src/Router/Prompt/Examples.antt =====
-- A small conversation for the theorem on the classifier's prompt (server/internal/router/engine.go).
use hhrouter.Base.{[], ◌∷◌, List}
use hhrouter.Base.Text.{codes}
use hhrouter.Router.Prompt.{Turn}

abbrev turns : List Turn
turns =
    record { role = codes "user"; text = codes "hello" }
    ∷ record { role = codes "user"; text = codes "list" }
    ∷ []
