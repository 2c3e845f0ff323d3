-- ===== src/Api/Server/Router.antt =====
-- The routes that initRouter of app/api/server.go registers. The router is of the package mux, which is
-- a parameter: it tests the routes in the order of their registration, and the template of a path is
-- read segment by segment, where {name} stands for what is not empty and has no slash, and
-- {name:[0-9]+} for digits.
use idena_indexer_api.Prelude.{
  Bool, true, false, ◌&&◌, List, [], ◌∷◌, String, if◌then◌else◌, ltb, length, ◌==◌,
}
use idena_indexer_api.Prelude.Text.{Text, codes, text_eq, to_lower, contains}
use idena_indexer_api.Prelude.Strings.{split}
use idena_indexer_api.Api.Params.{first_part}
use idena_indexer_api.Api.Server.{Handler}

-- A template, the names of Queries, and the handler.
pub record Route : Type 0 where
  pub template : Text
  pub queries : List Text
  pub handler : Handler

abbrev texts_of : List String → List Text
texts_of [] = []
texts_of (s ∷ ss) = codes s ∷ texts_of ss

-- router.Path(strings.ToLower(…)).Queries(…).HandlerFunc(…)
abbrev pub with_queries : String → List String → Handler → Route
with_queries template names handler = record {
  template = to_lower (codes template);
  queries = texts_of names;
  handler = handler;
}

-- router.Path(strings.ToLower(…)).HandlerFunc(…)
abbrev pub path : String → Handler → Route
path template handler = with_queries template [] handler

pub data Segment : Type 0 where
  literal : Text → Segment
  variable : Text → Segment
  digits : Text → Segment

-- One segment of a template.
unfoldable pub segment : Text → Segment
unfolding first_part contains
segment [] = literal []
segment (c ∷ s) =
    if c == b'{'
    then if contains s (codes ":")
      then digits (first_part s (codes ":"))
      else variable (first_part s (codes "}"))
    else literal (c ∷ s)

unfoldable pub segments : List Text → List Segment
unfolding segment
segments [] = []
segments (s ∷ ss) = segment s ∷ segments ss

unfoldable pub all_digits : Text → Bool
all_digits [] = true
all_digits (c ∷ s) = ltb 47 c && ltb c 58 && all_digits s

-- A segment of a template and one of a path.
unfoldable pub fits_segment : Segment → Text → Bool
unfolding text_eq all_digits
fits_segment (literal t) s = text_eq t s
fits_segment (variable n) s = ltb 0 (length s)
fits_segment (digits n) s = ltb 0 (length s) && all_digits s

unfoldable pub fits : List Segment → List Text → Bool
unfolding fits_segment
fits [] [] = true
fits [] (p ∷ ps) = false
fits (s ∷ ss) [] = false
fits (s ∷ ss) (p ∷ ps) = fits_segment s p && fits ss ps

-- The template and the path behind "/api" fit.
unfoldable pub fits_path : Text → Text → Bool
unfolding segments fits split
fits_path template p = fits (segments (split template b'/')) (split p b'/')
