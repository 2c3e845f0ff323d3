-- ===== src/Api/Server/Routes/Overlap.antt =====
-- Which routes of initRouter of app/api/server.go may answer the same path.
use idena_indexer_api.Prelude.{
  ℕ, zero, suc, ◌<◌, ◌≡◌, refl, sym, ap, ◌∙◌, ◌⊎◌, inl, inr, Bool, true, false, some, List, [], ◌∷◌,
  ◌++◌, if◌then◌else◌, arith, Any, get_elem?,
}
use mathlib.Core.Path.{subst}
use idena_indexer_api.Prelude.Text.{Text, codes, text_eq, text_eq_iff, to_lower}
use idena_indexer_api.Prelude.Strings.{split}
use idena_indexer_api.Api.Server.Router.{
  Route, Segment, literal, variable, digits, segments, fits_segment, fits, fits_path,
}
use idena_indexer_api.Api.Server.Routes.{routes}

-- Whether some segment of a path fits both.
overlap_segment : Segment → Segment → Bool
overlap_segment (literal s) (literal t) = text_eq s t
overlap_segment (literal s) other = fits_segment other s
overlap_segment other (literal t) = fits_segment other t
overlap_segment _ _ = true

overlap : List Segment → List Segment → Bool
overlap [] [] = true
overlap [] (t ∷ ts) = false
overlap (s ∷ ss) [] = false
overlap (s ∷ ss) (t ∷ ts) = elim (overlap_segment s t) [ true ↦ overlap ss ts | false ↦ false ]

fits_segment-overlap :
    (s t : Segment) (p : Text)
    → fits_segment s p ≡ true
    → fits_segment t p ≡ true
    → overlap_segment s t ≡ true
unfolding overlap_segment fits_segment
fits_segment-overlap (literal s) (literal t) p hs ht =
    ground (arith, text_eq_iff s p, text_eq_iff t p, text_eq_iff s t)
fits_segment-overlap (literal s) (variable n) p hs ht = ground (arith, text_eq_iff s p)
fits_segment-overlap (literal s) (digits n) p hs ht = ground (arith, text_eq_iff s p)
fits_segment-overlap (variable n) (literal t) p hs ht = ground (arith, text_eq_iff t p)
fits_segment-overlap (variable n) (variable m) p hs ht = refl
fits_segment-overlap (variable n) (digits m) p hs ht = refl
fits_segment-overlap (digits n) (literal t) p hs ht = ground (arith, text_eq_iff t p)
fits_segment-overlap (digits n) (variable m) p hs ht = refl
fits_segment-overlap (digits n) (digits m) p hs ht = refl

fits-overlap :
    (ss ts : List Segment) (p : List Text)
    → fits ss p ≡ true
    → fits ts p ≡ true
    → overlap ss ts ≡ true
unfolding overlap fits
fits-overlap [] [] p hs ht = refl
fits-overlap [] (t ∷ ts) [] hs ht = cc
fits-overlap [] (t ∷ ts) (q ∷ p) hs ht = cc
fits-overlap (s ∷ ss) [] [] hs ht = cc
fits-overlap (s ∷ ss) [] (q ∷ p) hs ht = cc
fits-overlap (s ∷ ss) (t ∷ ts) [] hs ht = cc
fits-overlap (s ∷ ss) (t ∷ ts) (q ∷ p) hs ht =
    ground (arith, fits_segment-overlap s t q, fits-overlap ss ts p)

abbrev segments_of : Route → List Segment
unfolding segments split
segments_of r = segments (split r.template b'/')

templates : List Route → List (Text × List Segment)
unfolding segments_of
templates [] = []
templates (r ∷ rs) = (r.template, segments_of r) ∷ templates rs

-- The templates that overlap one.
overlapping : List Segment → List (Text × List Segment) → List Text
unfolding overlap
overlapping ss [] = []
overlapping ss ((t, ts) ∷ rs) =
    let rest = overlapping ss rs in if overlap ss ts then t ∷ rest else rest

paired : Text → List Text → List (Text × Text)
paired t [] = []
paired t (u ∷ us) = (t, u) ∷ paired t us

-- The overlapping pairs, the earlier route first.
conflicts : List Route → List (Text × Text)
unfolding overlapping paired
conflicts [] = []
conflicts (r ∷ rs) = paired r.template (overlapping (segments_of r) (templates rs)) ++ conflicts rs

conflicts-routes :
    conflicts routes
    ≡ (codes "/circulatingsupply", codes "/circulatingsupply")
      ∷ (codes "/block/last", codes "/block/{id}")
      ∷ []
unfolding conflicts templates to_lower overlap_segment text_eq fits_segment
conflicts-routes = refl

paired-Any :
    (t u : Text) (us : List Text)
    → Any (λ v. v ≡ u) us
    → Any (λ q. (q.0 ≡ t) × (q.1 ≡ u)) (paired t us)
unfolding paired
paired-Any t u [] h = absurd h
paired-Any t u (v ∷ us) (inl e) = inl (refl, e)
paired-Any t u (v ∷ us) (inr h) = inr (paired-Any t u us h)

Any-append_left {ℓ} : {A : Type ℓ} (P : A → Type 0) (xs ys : List A) → Any P xs → Any P (xs ++ ys)
Any-append_left P [] ys h = absurd h
Any-append_left P (x ∷ xs) ys (inl h) = inl h
Any-append_left P (x ∷ xs) ys (inr h) = inr (Any-append_left P xs ys h)

Any-append_right {ℓ} : {A : Type ℓ} (P : A → Type 0) (xs ys : List A) → Any P ys → Any P (xs ++ ys)
Any-append_right P [] ys h = h
Any-append_right P (x ∷ xs) ys h = inr (Any-append_right P xs ys h)

Any-cons_if {ℓ} :
    {A : Type ℓ} (P : A → Type 0) (b : Bool) (x : A) (xs : List A)
    → Any P xs
    → Any P (if b then x ∷ xs else xs)
Any-cons_if P true x xs h = inr h
Any-cons_if P false x xs h = h

overlapping-Any :
    (a b : Route) (p : Text) (j : ℕ) (rs : List Route)
    → get_elem? rs j ≡ some b
    → fits_path a.template p ≡ true
    → fits_path b.template p ≡ true
    → Any (λ v. v ≡ b.template) (overlapping (segments_of a) (templates rs))
unfolding overlapping templates fits_path
overlapping-Any a b p j [] e ha hb = absurd (ground arith)
overlapping-Any a b p zero (r ∷ rs) e ha hb =
    let same : r ≡ b = ground arith in
    let over = fits-overlap (segments_of a) (segments_of b) (split p b'/') ha hb in
    rw (ap (λ x. overlap (segments_of a) (segments_of x)) same ∙ over, overlapping)
      (inl (ap (λ (x : Route). x.template) same))
overlapping-Any a b p (suc j) (r ∷ rs) e ha hb =
    Any-cons_if (λ v. v ≡ b.template) (overlap (segments_of a) (segments_of r)) r.template
      (overlapping (segments_of a) (templates rs)) (overlapping-Any a b p j rs e ha hb)

conflicts-Any :
    (a b : Route) (p : Text) (i j : ℕ) (rs : List Route)
    → i < j
    → get_elem? rs i ≡ some a
    → get_elem? rs j ≡ some b
    → fits_path a.template p ≡ true
    → fits_path b.template p ≡ true
    → Any (λ q. (q.0 ≡ a.template) × (q.1 ≡ b.template)) (conflicts rs)
unfolding conflicts
conflicts-Any a b p i j [] h ea eb ha hb = absurd (ground arith)
conflicts-Any a b p i zero (r ∷ rs) h ea eb ha hb = absurd (omega arith)
conflicts-Any a b p zero (suc j) (r ∷ rs) h ea eb ha hb =
    let same : r ≡ a = ground arith in
    Any-append_left (λ q. (q.0 ≡ a.template) × (q.1 ≡ b.template))
      (paired r.template (overlapping (segments_of r) (templates rs))) (conflicts rs)
      (subst
        (λ x.
          Any (λ q. (q.0 ≡ a.template) × (q.1 ≡ b.template))
            (paired x.template (overlapping (segments_of x) (templates rs))))
        (sym same)
        (paired-Any a.template b.template (overlapping (segments_of a) (templates rs))
          (overlapping-Any a b p j rs eb ha hb)))
conflicts-Any a b p (suc i) (suc j) (r ∷ rs) h ea eb ha hb =
    Any-append_right (λ q. (q.0 ≡ a.template) × (q.1 ≡ b.template))
      (paired r.template (overlapping (segments_of r) (templates rs))) (conflicts rs)
      (conflicts-Any a b p i j rs (omega arith) ea eb ha hb)

-- The router: whether it takes a path, behind "/api", for a template. It takes no path that does not
-- fit the template.
pub record Mux : Type 0 where
  pub matches : Text → Text → Bool
  pub matches-fits_path : (t p : Text) → matches t p ≡ true → fits_path t p ≡ true

-- If the router takes a path for the templates of two routes, the earlier and the later are the two
-- routes of the circulating supply, which have the same template, or those of the last block and of a
-- block: which other route answers does not depend on the order of registration.
pub routes_overlap :
    (mux : Mux) (a b : Route) (p : Text) (i j : ℕ)
    → i < j
    → get_elem? routes i ≡ some a
    → get_elem? routes j ≡ some b
    → mux.matches a.template p ≡ true
    → mux.matches b.template p ≡ true
    → ((codes "/circulatingsupply" ≡ a.template) × (codes "/circulatingsupply" ≡ b.template))
      ⊎ ((codes "/block/last" ≡ a.template) × (codes "/block/{id}" ≡ b.template))
routes_overlap mux a b p i j h ea eb ha hb =
    elim (subst (Any (λ q. (q.0 ≡ a.template) × (q.1 ≡ b.template))) conflicts-routes (
      conflicts-Any a b p i j routes h ea eb (mux.matches-fits_path a.template p ha)
        (mux.matches-fits_path b.template p hb))) [
          | inl c ↦ inl c
          | inr (inl c) ↦ inr c
          | inr (inr none_left) ↦ absurd none_left
        ]
