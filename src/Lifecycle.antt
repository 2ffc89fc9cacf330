-- ===== src/Lifecycle.antt =====
-- The interface of the state enums: crates/roboflow-distributed/src/state/mod.rs. The texts of an
-- error are the states that they print.
use roboflow.Prelude.{Bool, List, [], arith, false, if◌then◌else◌, not, refl, true, ◌∷◌, ◌≡◌}

-- The trait, without its default method.
pub record StateLifecycle (S : Type 0) : Type 0 where
  pub is_terminal : S → Bool
  pub is_claimable : S → Bool
  pub can_transition_to : S → S → Bool

pub data StateTransitionError (S : Type 0) : Type 0 where
  terminal_state : S → StateTransitionError S
  invalid_transition : S → S → StateTransitionError S

-- The new state, or the reason why it stays.
pub data Transition (S : Type 0) : Type 0 where
  moved : S → Transition S
  refused : StateTransitionError S → Transition S

-- The trait's default method.
unfoldable pub transition_to : {S : Type 0} → StateLifecycle S → S → S → Transition S
transition_to l s target =
    if l.is_terminal s
    then refused (terminal_state s)
    else if not (l.can_transition_to s target)
    then refused (invalid_transition s target)
    else moved target

-- What the documentation of the trait asks of an implementation.
pub record IsLawful {S : Type 0} (l : StateLifecycle S) : Type 0 where
  pub self_allowed : (s : S) → l.can_transition_to s s ≡ true
  pub terminal_stays : (s t : S) → l.is_terminal s ≡ true → l.can_transition_to s t ≡ true → s ≡ t
  pub claimable_lives : (s : S) → l.is_claimable s ≡ true → l.is_terminal s ≡ false

-- The caller keeps the old state when the transition is refused.
abbrev state_after : {S : Type 0} → S → Transition S → S
state_after s (moved t) = t
state_after s (refused e) = s

-- A list of attempted transitions.
unfoldable pub attempts : {S : Type 0} → StateLifecycle S → S → List S → S
attempts l s [] = s
attempts l s (t ∷ ts) = attempts l (state_after s (transition_to l s t)) ts

-- A terminal state outlasts every list of attempts, whatever the implementation allows.
pub attempts_terminal :
    {S : Type 0} (l : StateLifecycle S) (s : S) (ts : List S)
    → l.is_terminal s ≡ true
    → attempts l s ts ≡ s
unfolding attempts transition_to
attempts_terminal l s [] h = refl
attempts_terminal l s (t ∷ ts) h = ground (arith, attempts_terminal l s ts h)

-- Each move is one that the implementation allows; the refusal says why there was none.
abbrev pub Explains : {S : Type 0} → StateLifecycle S → S → S → Transition S → Type 0
Explains l s t (moved u) = (u ≡ t) × (l.is_terminal s ≡ false) × (l.can_transition_to s t ≡ true)
Explains l s t (refused (terminal_state u)) = (u ≡ s) × (l.is_terminal s ≡ true)
Explains l s t (refused (invalid_transition u v)) =
    (u ≡ s) × (v ≡ t) × (l.is_terminal s ≡ false) × (l.can_transition_to s t ≡ false)

-- A transition is made exactly when the state is not terminal and the implementation allows it, and
-- then to the target; otherwise the error says which of the two stood in the way, and of which states.
pub transition_to-Explains :
    {S : Type 0} (l : StateLifecycle S) (s t : S) → Explains l s t (transition_to l s t)
unfolding transition_to
transition_to-Explains l s t = ground arith
