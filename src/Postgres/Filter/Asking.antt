-- ===== src/Postgres/Filter/Asking.antt =====
-- Lists of states, as createContractsFilter of app/db/postgres/contracts.go reads them.
use idena_indexer_api.Prelude.{
  ◌≡◌, refl, ap, ◌∙◌, ◌⊎◌, inl, inr, Bool, true, false, not, ◌&&◌, ◌||◌, Option, none, some, List,
  [], ◌∷◌, arith, if◌then◌else◌,
}
use idena_indexer_api.Prelude.Text.{Text, codes, text_eq, to_lower, text_eq_iff}
use idena_indexer_api.Prelude.Result.{Result, ok, err, ◌>>=◌}
use idena_indexer_api.Postgres.Filter.{
  ContractsFilter, FilterError, unknown_state, empty_filter, add_state, add_states, is_by_reward,
}

-- A state is among those asked for, in any case of its letters.
unfoldable pub asks : List Text → Text → Bool
asks [] state = false
asks (s ∷ states) state = text_eq (to_lower s) state || asks states state

unfoldable pub is_state : Text → Bool
is_state s =
    text_eq s (codes "open")
    || text_eq s (codes "voted")
    || text_eq s (codes "counting")
    || text_eq s (codes "canbeprolonged")
    || text_eq s (codes "pending")
    || text_eq s (codes "archive")
    || text_eq s (codes "terminated")

-- The first state that is none of the seven.
unfoldable pub stranger : List Text → Option Text
stranger [] = none
stranger (s ∷ states) = if is_state (to_lower s) then stranger states else some s

-- The filter with the states asked for added.
abbrev pub asking : ContractsFilter → List Text → ContractsFilter
asking f states = record f {
  state_open = f.state_open || asks states (codes "open");
  state_voted = f.state_voted || asks states (codes "voted");
  state_counting = f.state_counting || asks states (codes "counting");
  state_can_be_prolonged = f.state_can_be_prolonged || asks states (codes "canbeprolonged");
  state_pending = f.state_pending || asks states (codes "pending");
  state_archive = f.state_archive || asks states (codes "archive");
  state_terminated = f.state_terminated || asks states (codes "terminated");
}

-- A text is one of the seven names, or differs from each.
name_cases :
    (t : Text)
    → (t ≡ codes "open")
      ⊎ (t ≡ codes "voted")
      ⊎ (t ≡ codes "counting")
      ⊎ (t ≡ codes "canbeprolonged")
      ⊎ (t ≡ codes "pending")
      ⊎ (t ≡ codes "archive")
      ⊎ (t ≡ codes "terminated")
      ⊎ (is_state t ≡ false)
unfolding is_state
name_cases t = ground (
  arith,
  text_eq_iff t (codes "open"),
  text_eq_iff t (codes "voted"),
  text_eq_iff t (codes "counting"),
  text_eq_iff t (codes "canbeprolonged"),
  text_eq_iff t (codes "pending"),
  text_eq_iff t (codes "archive"),
  text_eq_iff t (codes "terminated"),
)

abbrev pub reply : ContractsFilter → Option Text → Result FilterError ContractsFilter
reply g none = ok g
reply g (some s) = err (unknown_state s)

-- The answer when the rest of the loop starts from `g`.
abbrev pub answer : ContractsFilter → List Text → Result FilterError ContractsFilter
answer g states = reply g (stranger states)

add_state-unknown :
    (f : ContractsFilter) (s : Text)
    → is_state (to_lower s) ≡ false
    → add_state f s ≡ err (unknown_state s)
unfolding add_state is_state
add_state-unknown f s h = ground (arith, h)

-- What add_state adds is what asking adds for the state.
abbrev Adds : ContractsFilter → Text → List Text → Result FilterError ContractsFilter → Type 0
Adds f s states (err e) = (e ≡ unknown_state s) × (is_state (to_lower s) ≡ false)
Adds f s states (ok g) = (asking g states ≡ asking f (s ∷ states)) × (is_state (to_lower s) ≡ true)

add_state-Adds :
    (f : ContractsFilter) (s : Text) (states : List Text) → Adds f s states (add_state f s)
unfolding add_state asks is_state text_eq
add_state-Adds f s states = elim (name_cases (to_lower s)) [
  | inl e ↦ rw e (rw e (ground arith), rw e refl)
  | inr (inl e) ↦ rw e (rw e (ground arith), rw e refl)
  | inr (inr (inl e)) ↦ rw e (rw e (ground arith), rw e refl)
  | inr (inr (inr (inl e))) ↦ rw e (rw e (ground arith), rw e refl)
  | inr (inr (inr (inr (inl e)))) ↦ rw e (rw e (ground arith), rw e refl)
  | inr (inr (inr (inr (inr (inl e))))) ↦ rw e (rw e (ground arith), rw e refl)
  | inr (inr (inr (inr (inr (inr (inl e)))))) ↦ rw e (rw e (ground arith), rw e refl)
  | inr (inr (inr (inr (inr (inr (inr e)))))) ↦ rw (add_state-unknown f s e) (refl, e)
]

answer_nil : (f : ContractsFilter) → ok f ≡ answer (asking f []) []
unfolding asks stranger
answer_nil f = ground arith

stranger-known :
    (s : Text) (states : List Text)
    → is_state (to_lower s) ≡ true
    → stranger states ≡ stranger (s ∷ states)
unfolding stranger
stranger-known s states h = rw h refl

stranger-unknown :
    (s : Text) (states : List Text) → is_state (to_lower s) ≡ false → some s ≡ stranger (s ∷ states)
unfolding stranger
stranger-unknown s states h = rw h refl

add_next :
    (f : ContractsFilter) (s : Text) (states : List Text) (r : Result FilterError ContractsFilter)
    → Adds f s states r
    → ((g : ContractsFilter) → add_states g states ≡ answer (asking g states) states)
    → (r >>= λ next. add_states next states) ≡ answer (asking f (s ∷ states)) (s ∷ states)
add_next f s states (ok g) (same, known) ih =
    ih g
    ∙ ap (λ h. answer h states) same
    ∙ ap (reply (asking f (s ∷ states))) (stranger-known s states known)
add_next f s states (err e) (unknown, absent) ih =
    rw unknown (ap (reply (asking f (s ∷ states))) (stranger-unknown s states absent))

pub add_states-asking :
    (f : ContractsFilter) (states : List Text)
    → add_states f states ≡ answer (asking f states) states
unfolding add_states
add_states-asking f [] = answer_nil f
add_states-asking f (s ∷ states) =
    add_next f s states (add_state f s) (add_state-Adds f s states)
      (λ g. add_states-asking g states)

-- Every state asked for is open or pending.
unfoldable pub all_new : List Text → Bool
all_new [] = true
all_new (s ∷ states) =
    (text_eq (to_lower s) (codes "open") || text_eq (to_lower s) (codes "pending"))
    && all_new states

abbrev asks_other : List Text → Bool
asks_other states =
    asks states (codes "voted")
    || asks states (codes "counting")
    || asks states (codes "canbeprolonged")
    || asks states (codes "archive")
    || asks states (codes "terminated")

asks_other-all_new :
    (states : List Text) → stranger states ≡ none → asks_other states ≡ not (all_new states)
unfolding asks all_new stranger is_state text_eq
asks_other-all_new [] h = ground arith
asks_other-all_new (s ∷ states) h = elim (name_cases (to_lower s)) [
  | inl e ↦ rw e (ground (arith, asks_other-all_new states))
  | inr (inl e) ↦ rw e (ground (arith, asks_other-all_new states))
  | inr (inr (inl e)) ↦ rw e (ground (arith, asks_other-all_new states))
  | inr (inr (inr (inl e))) ↦ rw e (ground (arith, asks_other-all_new states))
  | inr (inr (inr (inr (inl e)))) ↦ rw e (ground (arith, asks_other-all_new states))
  | inr (inr (inr (inr (inr (inl e))))) ↦ rw e (ground (arith, asks_other-all_new states))
  | inr (inr (inr (inr (inr (inr (inl e)))))) ↦ rw e (ground (arith, asks_other-all_new states))
  | inr (inr (inr (inr (inr (inr (inr e)))))) ↦
      absurd (ground (arith, h, stranger-unknown s states e))
]

abbrev pub some_state : List Text → Bool
some_state [] = false
some_state (s ∷ states) = true

asks_new :
    (states : List Text)
    → all_new states ≡ true
    → (asks states (codes "open") || asks states (codes "pending")) ≡ some_state states
unfolding asks all_new
asks_new [] h = ground arith
asks_new (s ∷ states) h = ground (arith, h)

-- The votings are sorted by reward when states are asked for and each is open or pending.
pub is_by_reward-asked :
    (states : List Text)
    → stranger states ≡ none
    → is_by_reward (asking empty_filter states) ≡ (all_new states && some_state states)
unfolding is_by_reward empty_filter
is_by_reward-asked states h = ground (arith, asks_other-all_new states h, asks_new states)
