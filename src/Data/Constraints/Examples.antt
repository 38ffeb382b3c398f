-- ===== src/Data/Constraints/Examples.antt =====
-- Label constraints on one label.
use krake.Prelude.{String, [], ◌∷◌}
use krake.Prelude.Keys.{string_key}
use krake.Prelude.Dict.{Dict}

abbrev german : Dict String String
german = ("location", "DE") ∷ []
