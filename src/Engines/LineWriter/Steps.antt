-- ===== src/Engines/LineWriter/Steps.antt =====
-- What each step of the writer does to its windows and to the lines that it accounts for.
use astradns_agent.Common.{
  ℕ, ◌-◌, ◌≡◌, refl, ◌∙◌, Bool-cases, inl, inr, ltb, List, [], ◌∷◌, ◌++◌, Text, text_eq,
  length-append, arith, if◌then◌else◌, if_cases, ◌==◌,
}
use astradns_agent.Engines.LineWriter.{
  Logged, summary, LineWriter, rotate_window_if_needed, admit_line, emit_line, trim_returns,
  emit_all,
}
use astradns_agent.Engines.LineWriter.Log.{
  texts, IsShown-append, IsAccounted, non_empty, accounted, lines_since, IsPaced, written_lines,
  IsWindowed,
}

module _ (now : ℕ → ℕ) where
  -- What a step does: it accounts for the lines and keeps to the windows.
  pub record Accounts (given : List Text) (w v : LineWriter) : Type 0 where
    pub lines : IsAccounted given w v
    pub windowed : IsWindowed w → IsWindowed v
    pub buffer : v.buffer ≡ w.buffer

  pub Accounts-none : (w : LineWriter) → Accounts [] w w
  Accounts-none w = record {
    lines = record { total = omega arith; shown = refl };
    windowed = λ k. k;
    buffer = refl;
  }

  pub IsAccounted-trans :
      (xs ys : List Text) (u v w : LineWriter)
      → IsAccounted xs u v
      → IsAccounted ys v w
      → IsAccounted (xs ++ ys) u w
  IsAccounted-trans xs ys u v w a b = record {
    total = omega (arith, a.total, b.total, length-append xs ys);
    shown = IsShown-append xs ys (texts u.logged) (texts v.logged) (texts w.logged) a.shown b.shown;
  }

  Accounts-trans :
      (xs ys : List Text) (u v w : LineWriter)
      → Accounts xs u v
      → Accounts ys v w
      → Accounts (xs ++ ys) u w
  Accounts-trans xs ys u v w a b = record {
    lines = IsAccounted-trans xs ys u v w a.lines b.lines;
    windowed = λ k. b.windowed (a.windowed k);
    buffer = b.buffer ∙ a.buffer;
  }

  -- A summary is no line.
  texts-summary :
      (held : ℕ) (log : List Logged)
      → texts (if ltb 0 held then summary held ∷ log else log) ≡ texts log
  unfolding texts
  texts-summary held log = if_cases (λ l. texts l ≡ texts log) (ltb 0 held) (λ _. refl) λ _. refl

  with_summary :
      (max duration start held : ℕ) (log : List Logged)
      → IsPaced max duration start log
      → IsPaced max duration start (if ltb 0 held then summary held ∷ log else log)
  with_summary max duration start held log k =
      if_cases (IsPaced max duration start) (ltb 0 held) (λ _. k) λ _. k

  pub rotate-Accounts : (w : LineWriter) → Accounts [] w (rotate_window_if_needed now w)
  unfolding rotate_window_if_needed accounted lines_since texts
  rotate-Accounts w =
      if_cases (Accounts [] w) (ltb (now w.readings - w.window_start) w.window_duration)
        (λ _. record {
          lines = record { total = omega arith; shown = refl };
          windowed = λ k. record {
            lasting = k.lasting;
            paced = k.paced;
            emitted = k.emitted;
            bounded = k.bounded;
            full = k.full;
          };
          buffer = refl;
        })
        λ e. record {
          lines = record {
            total = ground arith;
            shown = texts-summary w.lines_suppressed w.logged;
          };
          windowed = λ k. record {
            lasting = k.lasting;
            paced =
                let lasting = k.lasting in
                (
                  refl,
                  (
                    w.window_start,
                    ground (arith, e, lasting),
                    with_summary w.max_lines_per_window w.window_duration w.window_start
                        w.lines_suppressed w.logged k.paced,
                  ),
                );
            emitted = refl;
            bounded = omega arith;
            full = λ p. absurd (omega (arith, p));
          };
          buffer = refl;
        }

  admit-Accounts : (s : Text) (w : LineWriter) → Accounts (s ∷ []) w (admit_line now s w)
  unfolding admit_line accounted lines_since texts
  admit-Accounts s w =
      if_cases (Accounts (s ∷ []) w) (ltb w.lines_emitted w.max_lines_per_window)
        (λ e. record {
          lines = record { total = omega arith; shown = inl refl };
          windowed = λ k. record {
            lasting = k.lasting;
            paced = (ground (arith, e, k.emitted), k.paced);
            emitted = omega (arith, k.emitted);
            bounded = ground (arith, e);
            full = λ p. ground (arith, e, k.full p);
          };
          buffer = refl;
        })
        λ e. record {
          lines = record {
            total = ground arith;
            shown = inr (
                if_cases (λ log. texts log ≡ texts w.logged) (w.lines_suppressed == 0) (λ _. refl)
                  λ _. refl);
          };
          windowed = λ k. record {
            lasting = k.lasting;
            paced =
                if_cases (IsPaced w.max_lines_per_window w.window_duration w.window_start)
                  (w.lines_suppressed == 0) (λ _. k.paced) λ _. k.paced;
            emitted =
                if_cases (λ log. lines_since log ≡ w.lines_emitted) (w.lines_suppressed == 0)
                  (λ _. k.emitted) λ _. k.emitted;
            bounded = k.bounded;
            full = λ p. ground (arith, e, k.bounded);
          };
          buffer = refl;
        }

  pub emit-Accounts : (s : Text) (w : LineWriter) → Accounts (non_empty s) w (emit_line now s w)
  unfolding emit_line
  emit-Accounts s w = elim (Bool-cases (text_eq s [])) [
    | inl e ↦ rw e (Accounts-none w)
    | inr e ↦ rw e (
        Accounts-trans [] (s ∷ []) w (rotate_window_if_needed now w) _ (rotate-Accounts w)
          (admit-Accounts s (rotate_window_if_needed now w)))
  ]

  pub emit_all-Accounts :
      (lines : List Text) (w : LineWriter) → Accounts (written_lines lines) w (emit_all now lines w)
  unfolding emit_all written_lines
  emit_all-Accounts [] w = Accounts-none w
  emit_all-Accounts (s ∷ lines) w =
      Accounts-trans (non_empty (trim_returns s)) (written_lines lines) w
        (emit_line now (trim_returns s) w) _ (emit-Accounts (trim_returns s) w)
        (emit_all-Accounts lines _)
