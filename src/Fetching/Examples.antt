-- ===== src/Fetching/Examples.antt =====
-- A policy that names one host.
use recipe_import_from_anyth.Base.{String, ◌==◌, Option, none, some, List, [], ◌∷◌, if◌then◌else◌}

abbrev hostname : String → Option String
hostname url = if url == "https://a.test/soup" then some "a.test" else none

abbrev policy : Option (List String)
policy = some ("a.test" ∷ [])
