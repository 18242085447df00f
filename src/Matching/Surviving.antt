-- ===== src/Matching/Surviving.antt =====
-- What a route does without a panic: the steps that telnet, eqlog and peqeditorsql share.
use talkeqidea.Common.{
  leb, Bool-cases, inl, inr, zero, suc, ℕ, ◌<◌, length, ◌≡◌, Bool, true, false, not, List, [], ◌∷◌,
  Option, none, some, Text, ℤ, pos, negsuc, Result, ok, err, ◌>>=◌, refuse_if, arith, refl,
}
use talkeqidea.Requests.{Request}
use talkeqidea.Config.Routes.{Route, loaded_or, message_pattern_template}
use talkeqidea.Matching.{
  Engine, Stop, skipped, panicked, match_route, matched, first_match, element, group,
  execute_loaded, executed, Sent, and_then, to_discord,
}

-- What does not panic.
abbrev pub survives : {A : Type 0} → Result Stop A → Bool
survives (ok a) = true
survives (err skipped) = true
survives (err panicked) = false

pub survives->>= :
    {A B : Type 0} (step : A → Result Stop B) (first : Result Stop A)
    → survives first ≡ true
    → ((a : A) → survives (step a) ≡ true)
    → survives (first >>= step) ≡ true
survives->>= step (ok a) h each = each a
survives->>= step (err skipped) h each = refl
survives->>= step (err panicked) h each = h

pub and_then-runs :
    (r : Result Stop (List Request)) (later : Sent)
    → survives r ≡ true
    → later.1 ≡ true
    → (and_then r later).1 ≡ true
unfolding and_then
and_then-runs (ok sent) (later, runs) h runs_on = runs_on
and_then-runs (err skipped) later h runs_on = runs_on
and_then-runs (err panicked) later h runs_on = h

abbrev pub is_natural : ℤ → Bool
is_natural (pos n) = true
is_natural (negsuc n) = false

-- Groups are counted from the first.
abbrev pub HasIndices : Route → Type 0
HasIndices r =
    (is_natural r.trigger.message_index ≡ true) × (is_natural r.trigger.name_index ≡ true)

-- What is within range does not panic.
pub element-survives : (m : List Text) (i : ℕ) → i < length m → survives (element m i) ≡ true
unfolding element
element-survives [] i h = absurd (omega arith)
element-survives (x ∷ xs) zero h = refl
element-survives (x ∷ xs) (suc i) h = element-survives xs i (omega arith)

pub group-survives : (i : ℤ) (m : List Text) → is_natural i ≡ true → survives (group i m) ≡ true
unfolding group
group-survives (pos i) m h = elim (Bool-cases (leb (length m) i)) [
  | inl outside ↦ rw outside refl
  | inr inside ↦ rw inside (element-survives m i (ground arith))
]
group-survives (negsuc i) m h = absurd (cc)

first_match-survives : (ms : List (List Text)) → survives (first_match ms) ≡ true
unfolding first_match
first_match-survives [] = refl
first_match-survives (m ∷ rest) = refl

pub matched-survives :
    (line : Text) (r : Option (Text → List (List Text))) → survives (matched line r) ≡ true
unfolding matched
matched-survives line none = refl
matched-survives line (some find) = first_match-survives (find line)

pub refuse_if-survives : (b : Bool) → survives (refuse_if (not b) skipped) ≡ true
refuse_if-survives true = refl
refuse_if-survives false = refl

module _ (e : Engine) where
  pub match_route-survives : (regex line : Text) → survives (match_route e regex line) ≡ true
  unfolding match_route
  match_route-survives regex line = matched-survives line (e.compile regex)

  executed-survives : (text : Option Text) → survives (executed text) ≡ true
  unfolding executed
  executed-survives none = refl
  executed-survives (some text) = refl

  execute_loaded-survives :
      (r : Route) (name message : Text) (template : Option Text)
      → template ≡ some r.message_pattern
      → survives (execute_loaded e (loaded_or e.parses r.message_pattern template) name message)
        ≡ true
  unfolding loaded_or execute_loaded
  execute_loaded-survives r name message none h = absurd (cc)
  execute_loaded-survives r name message (some t) h = executed-survives (e.execute t name message)

  pub loaded_survives :
      (r : Route) (name message : Text)
      → r.template ≡ some r.message_pattern
      → survives (execute_loaded e (message_pattern_template e.parses r) name message) ≡ true
  unfolding message_pattern_template
  loaded_survives r name message h = execute_loaded-survives r name message r.template h

  pub to_discord-survives : (r : Route) (text : Text) → survives (to_discord r text) ≡ true
  unfolding to_discord
  to_discord-survives r text = ground arith
