-- ===== src/RideGroup/Channels/Examples.antt =====
-- A channel with one publication, and its window after nine more.
use radio_gaga.Common.{ℕ, ◌≡◌, refl, List, [], ◌∷◌, ◌++◌, map, drop, pos, arith}
use radio_gaga.RideGroup.Channels.{RedisPublication}
use radio_gaga.RideGroup.Channels.Window.{Request, requested, queue_all, window, queue_all-window}

abbrev request : ℕ → Request
request n = record { now = n; channel = "ride:peers"; payload = "peer"; max_age = pos 5 }

abbrev requests : List Request
requests = map request (1 ∷ 2 ∷ 3 ∷ 4 ∷ 5 ∷ 6 ∷ 7 ∷ 8 ∷ 9 ∷ [])

abbrev first : RedisPublication
first = requested (request 0)

queue_all-window_example :
    queue_all requests (first ∷ []) ≡ window ((first ∷ []) ++ map requested requests)
queue_all-window_example = queue_all-window requests (first ∷ []) (omega arith)

newest_eight : window ((first ∷ []) ++ map requested requests) ≡ map requested (drop 1 requests)
unfolding window
newest_eight = refl
