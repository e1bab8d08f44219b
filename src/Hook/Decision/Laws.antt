-- ===== src/Hook/Decision/Laws.antt =====
-- When the hook asks, what it logs, and what makes no difference to it.
use runecho.Prelude.{
  ℕ, ◌≡◌, refl, Bool, true, false, not, ◌&&◌, ◌||◌, Option, none, some, List, [], ◌∷◌, ◌++◌, arith,
  ltb, if◌then◌else◌,
}
use runecho.Order.{nat_ord, list_ord, ◌=?◌}
use runecho.Int.{ℤ}
use runecho.Maps.{is_some}
use runecho.Text.{Bytes, codes}
use runecho.Guard.Lang.{Lang}
use runecho.Hook.Scope.{ContractWarning}
use runecho.Hook.Lookup.{LookupResult}
use runecho.Hook.Log.{
  AskSection, violations_section, dangling_section, dropped_section, duplicates_section,
  incomplete_note, lang_text, Response, defer, defer_context, ask, is_ask, Outcome, deferred,
  ask_contract_only,
}
use runecho.Hook.Findings.{Findings}
use runecho.Hook.Decision.{
  has_none, degraded_count, sections, section_if, ask_outcome, stale_outcome, has_findings, decide,
}

-- A question has a section, and the log says `ask` for a question and nothing else.
abbrev pub has_reason : Response → Bool
has_reason defer = true
has_reason (defer_context n) = true
has_reason (ask ss) = not (has_none ss)

abbrev pub IsSound : Outcome → Type 0
IsSound o = ((o.log.decision =? codes "ask") ≡ is_ask o.response) × (has_reason o.response ≡ true)

pub deferred-IsSound :
    (r : Response) (repo file lang reason : Bytes)
    → is_ask r ≡ false
    → IsSound (deferred r repo file lang reason)
deferred-IsSound defer repo file lang reason h = (refl, refl)
deferred-IsSound (defer_context n) repo file lang reason h = (refl, refl)
deferred-IsSound (ask ss) repo file lang reason h = cc

pub ask_contract_only-IsSound :
    (cw : Option ContractWarning) (file_path : Bytes) (lang : Lang) (o : Outcome)
    → IsSound o
    → IsSound (ask_contract_only cw file_path lang o)
unfolding ask_contract_only
ask_contract_only-IsSound none file_path lang o h = h
ask_contract_only-IsSound (some cw) file_path lang o h = (refl, refl)

pub is_ask-ask_contract_only :
    (cw : Option ContractWarning) (file_path : Bytes) (lang : Lang) (o : Outcome)
    → is_ask (ask_contract_only cw file_path lang o).response ≡ (is_some cw || is_ask o.response)
unfolding ask_contract_only
is_ask-ask_contract_only none file_path lang o = refl
is_ask-ask_contract_only (some cw) file_path lang o = refl

-- What holds of both outcomes, each where it is taken.
pub either {ℓ} :
    {A : Type ℓ} (P : A → Type 0) (b : Bool) (o q : A)
    → (b ≡ true → P o)
    → (b ≡ false → P q)
    → P (if b then o else q)
either P true o q h k = h refl
either P false o q h k = k refl

stale-IsSound :
    (now latest : ℕ) (max_age : Option ℤ) (repo file lang : Bytes)
    → IsSound (stale_outcome now latest max_age repo file lang)
      × (is_ask (stale_outcome now latest max_age repo file lang).response ≡ false)
stale-IsSound now latest none repo file lang = ((refl, refl), refl)
stale-IsSound now latest (some age) repo file lang = ground arith

has_none_append : {A : Type 0} (xs ys : List A) → has_none (xs ++ ys) ≡ (has_none xs && has_none ys)
has_none_append [] ys = refl
has_none_append (x ∷ xs) ys = refl

has_none-section_if :
    {A : Type 0} (s : List A → AskSection) (xs : List A) → has_none (section_if s xs) ≡ has_none xs
has_none-section_if s [] = refl
has_none-section_if s (x ∷ xs) = refl

sections_non_empty :
    (cw : Option ContractWarning) (fs : Findings)
    → has_findings fs ≡ true
    → not (has_none (sections cw fs)) ≡ true
sections_non_empty (some cw) fs h = refl
sections_non_empty none fs h =
    let vs = section_if violations_section fs.violations in
    let ds = section_if dangling_section fs.dangling.warns in
    let is = section_if dropped_section fs.dropped in
    let us = section_if duplicates_section fs.duplicates.warns in
    ground (
      arith,
      h,
      has_none_append (vs ++ ds ++ is) us,
      has_none_append (vs ++ ds) is,
      has_none_append vs ds,
      has_none-section_if violations_section fs.violations,
      has_none-section_if dangling_section fs.dangling.warns,
      has_none-section_if dropped_section fs.dropped,
      has_none-section_if duplicates_section fs.duplicates.warns,
    )

module _ (strict : Bool) (now : ℕ) (max_age : Option ℤ) where
  -- Nothing found: the answer if there is no contract to ask about.
  abbrev quiet : LookupResult → Bytes → Lang → Findings → Outcome
  quiet res file_path lang fs =
      if ltb 0 (degraded_count fs) && strict
      then deferred (defer_context (incomplete_note (degraded_count fs))) res.repo_name file_path
          (lang_text lang) (codes "check-degraded")
      else stale_outcome now res.latest max_age res.repo_name file_path (lang_text lang)

  quiet-IsSound :
      (res : LookupResult) (file_path : Bytes) (lang : Lang) (fs : Findings)
      → IsSound (quiet res file_path lang fs)
        × (is_ask (quiet res file_path lang fs).response ≡ false)
  quiet-IsSound res file_path lang fs =
      let (sound, silent) =
        stale-IsSound now res.latest max_age res.repo_name file_path (lang_text lang) in
      ground arith

  pub decide-IsSound :
      (res : LookupResult) (file_path : Bytes) (lang : Lang) (fs : Findings)
      → IsSound (decide strict now max_age res file_path lang fs)
  unfolding decide
  decide-IsSound res file_path lang fs =
      either IsSound (has_findings fs) (ask_outcome res.contract file_path lang res.repo_name fs)
        (ask_contract_only res.contract file_path lang (quiet res file_path lang fs))
        (λ found. (refl, sections_non_empty res.contract fs found))
        (λ found.
          ask_contract_only-IsSound res.contract file_path lang (quiet res file_path lang fs)
            (quiet-IsSound res file_path lang fs).0)
