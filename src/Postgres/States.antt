-- ===== src/Postgres/States.antt =====
-- convertIdentityStates of app/db/postgres/epoch.go, and convertMissedRewardReason of epoch_identity.go.
use idena_indexer_api.Prelude.{
  ℕ, zero, suc, ◌<◌, ◌≡◌, ◌↔◌, refl, Option, none, some, List, [], ◌∷◌, map, arith, if◌then◌else◌,
  ◌==◌,
}
use mathlib.Core.Path.{subst}
use idena_indexer_api.Prelude.Text.{Text, codes, text_eq, text_eq_iff}
use idena_indexer_api.Prelude.Result.{Result, ok, ◌>>=◌, or_error, bind_ok, or_error_ok}

pub data StateError : Type 0 where
  unknown_state : Text → StateError

-- identityStatesByName
abbrev pub identity_states_by_name : List (Text × ℕ)
identity_states_by_name =
    (codes "Undefined", 0)
    ∷ (codes "Invite", 1)
    ∷ (codes "Candidate", 2)
    ∷ (codes "Verified", 3)
    ∷ (codes "Suspended", 4)
    ∷ (codes "Killed", 5)
    ∷ (codes "Zombie", 6)
    ∷ (codes "Newbie", 7)
    ∷ (codes "Human", 8)
    ∷ []

unfoldable pub find_state : Text → List (Text × ℕ) → Option ℕ
find_state name [] = none
find_state name ((n, state) ∷ rest) =
    let other = find_state name rest in if text_eq n name then some state else other

-- An empty list becomes nil, which is read as the empty list.
unfoldable pub convert_identity_states : List Text → Result StateError (List ℕ)
unfolding find_state
convert_identity_states [] = ok []
convert_identity_states (name ∷ names) = do
  state ← or_error (unknown_state name) (find_state name identity_states_by_name)
  states ← convert_identity_states names
  ok (state ∷ states)

-- The name of a state.
unfoldable pub state_name : ℕ → List (Text × ℕ) → Option Text
state_name state [] = none
state_name state ((n, s) ∷ rest) =
    let other = state_name state rest in if s == state then some n else other

find_state→state_name :
    (name : Text) (s : ℕ)
    → find_state name identity_states_by_name ≡ some s
    → state_name s identity_states_by_name ≡ some name
unfolding find_state state_name
find_state→state_name name s h = ground (
  arith,
  text_eq_iff (codes "Undefined") name,
  text_eq_iff (codes "Invite") name,
  text_eq_iff (codes "Candidate") name,
  text_eq_iff (codes "Verified") name,
  text_eq_iff (codes "Suspended") name,
  text_eq_iff (codes "Killed") name,
  text_eq_iff (codes "Zombie") name,
  text_eq_iff (codes "Newbie") name,
  text_eq_iff (codes "Human") name,
)

-- The state is what its name, if it has one, is looked up as.
abbrev Found : ℕ → Option Text → Type 0
Found s none = Unit
Found s (some name) = find_state name identity_states_by_name ≡ some s

no_state : (s : ℕ) → 8 < s → state_name s identity_states_by_name ≡ none
unfolding state_name
no_state s h = ground arith

state_name-Found : (s : ℕ) → Found s (state_name s identity_states_by_name)
unfolding find_state state_name text_eq
state_name-Found zero = refl
state_name-Found (suc zero) = refl
state_name-Found (suc (suc zero)) = refl
state_name-Found (suc (suc (suc zero))) = refl
state_name-Found (suc (suc (suc (suc zero)))) = refl
state_name-Found (suc (suc (suc (suc (suc zero))))) = refl
state_name-Found (suc (suc (suc (suc (suc (suc zero)))))) = refl
state_name-Found (suc (suc (suc (suc (suc (suc (suc zero))))))) = refl
state_name-Found (suc (suc (suc (suc (suc (suc (suc (suc zero)))))))) = refl
state_name-Found (suc (suc (suc (suc (suc (suc (suc (suc (suc s))))))))) =
    rw (no_state (suc (suc (suc (suc (suc (suc (suc (suc (suc s))))))))) (omega arith)) tt

state_name→find_state :
    (name : Text) (s : ℕ)
    → state_name s identity_states_by_name ≡ some name
    → find_state name identity_states_by_name ≡ some s
state_name→find_state name s h = subst (Found s) h (state_name-Found s)

abbrev pub names_of : List ℕ → List (Option Text)
names_of = map (λ s. state_name s identity_states_by_name)

convert→names :
    (names : List Text) (states : List ℕ)
    → convert_identity_states names ≡ ok states
    → names_of states ≡ map (λ n. some n) names
unfolding convert_identity_states
convert→names [] states h = ground arith
convert→names (name ∷ names) states h =
    let (s, found, more) =
      bind_ok (or_error (unknown_state name) (find_state name identity_states_by_name))
        (λ state. convert_identity_states names >>= λ rest. ok (state ∷ rest)) states h in
    let (rest, converted, whole) =
      bind_ok (convert_identity_states names) (λ rest. ok (s ∷ rest)) states more in
    let found_some : find_state name identity_states_by_name ≡ some s =
      or_error_ok (unknown_state name) (find_state name identity_states_by_name) s found in
    ground (arith, find_state→state_name name s found_some, convert→names names rest converted)

names→convert :
    (names : List Text) (states : List ℕ)
    → names_of states ≡ map (λ n. some n) names
    → convert_identity_states names ≡ ok states
unfolding convert_identity_states
names→convert [] [] h = refl
names→convert [] (s ∷ states) h = ground arith
names→convert (name ∷ names) [] h = ground arith
names→convert (name ∷ names) (s ∷ states) h =
    let head : state_name s identity_states_by_name ≡ some name = ground arith in
    let tail : names_of states ≡ map (λ n. some n) names = ground arith in
    rw (state_name→find_state name s head, names→convert names states tail) refl

-- convertIdentityStates returns just the list of states whose names were given, in their order; it
-- fails if a name is not that of a state.
pub convert_identity_states_iff :
    (names : List Text) (states : List ℕ)
    → (convert_identity_states names ≡ ok states) ↔ (names_of states ≡ map (λ n. some n) names)
convert_identity_states_iff names states = (convert→names names states, names→convert names states)
