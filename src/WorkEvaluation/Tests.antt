-- ===== src/WorkEvaluation/Tests.antt =====
-- Periods on a table of rows, at concrete inputs.
use newbie_modules.Common.{ℕ, refl, some, List, [], ◌∷◌}
use newbie_modules.Common.Table.{matched}
use newbie_modules.Common.Rows.{
  find_row, find_rows, write_row, find_row-id, find_row-write_row, find_rows_sound,
  find_rows_complete,
}
use newbie_modules.Evaluation.Criteria.Service.{Version}
use newbie_modules.Evaluation.Criteria.Tests.{Tables, tables, insert, insert-some, draft}
use newbie_modules.WorkEvaluation.Period.{
  closed, collection, Period, PeriodDb, CreatePeriodInput, new_period, create_period,
  transition_period_status,
}
use newbie_modules.WorkEvaluation.Changes.{Reach, here, next, created, transitioned}
use newbie_modules.WorkEvaluation.Disjoint.{IsDisjoint, Reach-IsDisjoint}
use newbie_modules.WorkEvaluation.Progress.{MovesOn, Reach-MovesOn}

abbrev id_of : Period → ℕ
id_of p = p.id

abbrev rows : PeriodDb (List Period)
rows = record {
  periods = record {
    find = find_row id_of;
    find_many = find_rows id_of;
    update_many = λ id p f s. (write_row id_of id p f s, matched p (find_row id_of id s));
    find-id = find_row-id id_of;
    find-update_many = find_row-write_row id_of;
    count-update_many = λ id p f s. refl;
    find_many_sound = find_rows_sound id_of;
    find_many_complete = find_rows_complete id_of;
  };
  create = λ p s. insert id_of p s (find_row id_of p.id s);
  find-create = λ p s t j made. rw (insert-some id_of p s t _ made).1;
  create_fresh = λ p s t made. (insert-some id_of p s t _ made).0;
}

abbrev work : Version
work = record draft { kind = "work"; published_at = some 5 }

abbrev anchors : Tables
anchors = (work ∷ [], [])

abbrev january : CreatePeriodInput
january = record { rule_set_version_id = 3; type = collection; period_start = 10; period_end = 20 }

abbrev late_january : CreatePeriodInput
late_january = record january { period_start = 15; period_end = 25 }

abbrev one_period : List Period
one_period = (create_period rows tables january 1 anchors []).0

abbrev two_attempts :
    Reach rows tables [] (create_period rows tables late_january 2 anchors one_period).0
two_attempts =
    next (next here (created january 1 anchors [])) (created late_january 2 anchors one_period)

empty-IsDisjoint : IsDisjoint rows tables []
empty-IsDisjoint = record {
  ordered = λ j p h. absurd (cc h);
  apart = λ i j p q h k o. absurd (cc h);
}

Reach-IsDisjoint_example :
    IsDisjoint rows tables (create_period rows tables late_january 2 anchors one_period).0
Reach-IsDisjoint_example = Reach-IsDisjoint rows tables two_attempts empty-IsDisjoint

abbrev planned : List Period
planned = new_period january 1 ∷ []

abbrev closes_early :
    Reach rows tables planned (transition_period_status rows planned 1 closed planned).0
closes_early = next here (transitioned 1 closed planned planned)

Reach-MovesOn_example :
    MovesOn rows tables 1
      (new_period january 1)
      (transition_period_status rows planned 1 closed planned).0
Reach-MovesOn_example = Reach-MovesOn rows tables 1 (new_period january 1) closes_early refl
