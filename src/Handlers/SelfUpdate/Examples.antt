-- ===== src/Handlers/SelfUpdate/Examples.antt =====
-- An update that fails, and the theorems on its results at it.
use radio_gaga.Common.{
  String, ◌+◌, ◌≡◌, refl, true, false, str_append, List, [], ◌∷◌, none, some, pos, arith,
}
use radio_gaga.Handlers.SelfUpdate.Waiting.{
  Happening, arrives, gives_up, lands, nobody, flights, unanswered, happens, happens-nobody,
}
use radio_gaga.Handlers.SelfUpdate.{
  self_update_state_dir, self_update_download_policy, policy_duration, missing, Around, saved,
  run_coordinated_self_update, run_and_save, replayed,
}
use radio_gaga.Handlers.SelfUpdate.History.{runs}
use radio_gaga.Handlers.SelfUpdate.Between.{runs-replayed}

abbrev failing : Around
failing = record {
  over = false;
  directory_made = true;
  lock_taken = true;
  now = 1000;
  run = some (98 ∷ 97 ∷ 100 ∷ []);
  over_after = false;
  finished_at = 1060;
  save = saved;
}

abbrev redelivered : Around
redelivered = record failing { now = 2000; run = none }

ran_once : (run_coordinated_self_update failing "r" "i" missing).ran ≡ true
unfolding run_coordinated_self_update run_and_save
ran_once = refl

abbrev others : List (Around × String × String)
others = (failing, "s", "i") ∷ (redelivered, "t", "i") ∷ []

runs-replayed_example :
    run_coordinated_self_update redelivered "r" "i"
      (runs others (run_coordinated_self_update failing "r" "i" missing).file)
    ≡ record {
      file = runs others (run_coordinated_self_update failing "r" "i" missing).file;
      ran = false;
      answer = some (replayed (98 ∷ 97 ∷ 100 ∷ []));
    }
runs-replayed_example =
    runs-replayed failing redelivered "r" "i" missing others refl refl ran_once (omega arith)
      ((refl, omega arith), ((refl, omega arith), tt)) refl refl refl (omega arith)

abbrev events : List Happening
events =
    arrives ("r", "i")
    ∷ arrives ("r", "i")
    ∷ arrives ("s", "i")
    ∷ gives_up
    ∷ lands none
    ∷ arrives ("s", "i")
    ∷ []

happens-nobody_example :
    ((happens events nobody).begun
      ≡ (happens events nobody).landed + flights (happens events nobody).active)
    × ((happens events nobody).arrived
        ≡ (happens events nobody).answered + unanswered (happens events nobody).active)
happens-nobody_example = happens-nobody events

state_dir :
    self_update_state_dir
      (λ a b. str_append a (str_append "/" b))
      (λ p. "/etc")
      ""
      "/etc/radio-gaga.yml"
    ≡ some "/etc/.self-update"
unfolding self_update_state_dir
state_dir = refl

no_policy : self_update_download_policy (some (pos 3600000000000)) (some (pos 3600000000000)) ≡ none
unfolding self_update_download_policy policy_duration
no_policy = refl
