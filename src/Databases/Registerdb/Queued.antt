-- ===== src/Databases/Registerdb/Queued.antt =====
-- What the quests are handed of registerdb/registerdb.go.
use talkeqidea.Common.{
  ℕ, ◌≤◌, ◌≡◌, true, false, List, [], ◌∷◌, ◌++◌, Option, some, Text, TextMap, All, lookup, insert,
  lookup-insert, text_eq, ltb, Bool-cases, inl, inr, arith, ap, ◌∙◌, sym,
}
use talkeqidea.Databases.Registerdb.{
  Registrations, RegisterEntry, is_queued, waiting_reply, take_queued, queued_entries,
}

-- Every entry stands under the identifier that it has.
abbrev pub IsKeyed : TextMap RegisterEntry → Type 0
IsKeyed m = All (λ (p : Text × RegisterEntry). p.1.discord_id ≡ p.0) m

-- What is queued is still to come.
abbrev AreToCome : ℕ → TextMap RegisterEntry → TextMap RegisterEntry → Type 0
AreToCome now m rest =
    (id : Text) (e : RegisterEntry)
    → lookup id m ≡ some e
    → is_queued now e ≡ true
    → lookup id rest ≡ some e

some-injective : {a b : RegisterEntry} → ◌≡◌ {A = Option RegisterEntry} (some a) (some b) → a ≡ b
some-injective h = cc

told_not_queued :
    (now : ℕ) (e : RegisterEntry) → is_queued now (record e { status = waiting_reply }) ≡ false
unfolding is_queued text_eq
told_not_queued now e = elim (Bool-cases (ltb e.timeout now)) [
  | inl late ↦ rw late
  | inr early ↦ rw early
]

step_told :
    (now : ℕ) (m rest : TextMap RegisterEntry) (key : Text) (first : RegisterEntry)
    → first.discord_id ≡ key
    → AreToCome now m ((key, first) ∷ rest)
    → AreToCome now (insert first.discord_id (record first { status = waiting_reply }) m) rest
unfolding lookup
step_told now m rest key first keyed come id e found queued =
    let told = record first { status = waiting_reply } in
    let asked = sym (lookup-insert first.discord_id id told m) ∙ found in
    elim (Bool-cases (text_eq first.discord_id id)) [
      | inl same ↦ absurd (
          let here : some told ≡ some e = sym (rw same) ∙ asked in
          let made : told ≡ e = some-injective here in
          let idle = told_not_queued now first in
          let busy : is_queued now told ≡ true = ap (is_queued now) made ∙ queued in cc)
      | inr other ↦
          (let there : lookup id m ≡ some e = sym (rw other) ∙ asked in
            let elsewhere : text_eq key id ≡ false = ap (λ k. text_eq k id) (sym keyed) ∙ other in
            sym (rw elsewhere) ∙ come id e there queued)
    ]

step_passed :
    (now : ℕ) (m rest : TextMap RegisterEntry) (key : Text) (first : RegisterEntry)
    → is_queued now first ≡ false
    → AreToCome now m ((key, first) ∷ rest)
    → AreToCome now m rest
unfolding lookup
step_passed now m rest key first idle come id e found queued =
    let there = come id e found queued in
    elim (Bool-cases (text_eq key id)) [
      | inl same ↦ absurd (
          let here : first ≡ e = some-injective (sym (rw same) ∙ there) in
          let busy : is_queued now first ≡ true = ap (is_queued now) here ∙ queued in cc)
      | inr other ↦ sym (rw other) ∙ there
    ]

take_queued-none :
    (now : ℕ) (m : TextMap RegisterEntry) (taken : List RegisterEntry)
    (rest : TextMap RegisterEntry)
    → IsKeyed rest
    → AreToCome now m rest
    → (id : Text) (e : RegisterEntry) → lookup id (take_queued now m taken rest).0 ≡ some e
    → is_queued now e ≡ false
unfolding take_queued lookup
take_queued-none now m taken [] keyed come id e found = elim (Bool-cases (is_queued now e)) [
  | inl queued ↦ absurd (let nowhere = come id e found queued in cc)
  | inr idle ↦ idle
]
take_queued-none now m taken ((key, first) ∷ rest) (k, keyed) come id e found =
    elim (Bool-cases (is_queued now first)) [
      | inl queued ↦
          (let told = record first { status = waiting_reply } in
            take_queued-none now (insert first.discord_id told m) (taken ++ told ∷ []) rest keyed
              (step_told now m rest key first k come) id e (sym (rw queued) ∙ found))
      | inr idle ↦
          take_queued-none now m taken rest keyed (step_passed now m rest key first idle come) id e
            (sym (rw idle) ∙ found)
    ]

later_not_queued :
    (now later : ℕ) (e : RegisterEntry)
    → now ≤ later
    → is_queued now e ≡ false
    → is_queued later e ≡ false
unfolding is_queued
later_not_queued now later e h idle = ground arith

-- Where every entry stands under its own identifier, what can be found after the queued entries were
-- handed out is not queued at that moment, nor at any later one.
pub handed_out_once :
    (r : Registrations) (now later : ℕ) (id : Text) (e : RegisterEntry)
    → IsKeyed r.registrations
    → now ≤ later
    → lookup id (queued_entries r now).0.registrations ≡ some e
    → is_queued later e ≡ false
unfolding queued_entries
handed_out_once r now later id e keyed h found = later_not_queued now later e h (
    take_queued-none now r.registrations [] r.registrations keyed (λ id e at queued. at) id e found)
