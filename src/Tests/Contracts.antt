-- ===== src/Tests/Contracts.antt =====
-- The signals of a chain at a concrete one. The world is the errors that were reported.
use rx_rust.Base.{ℕ, String, true, false, Option, some, List, [], ◌∷◌}
use rx_rust.Effect.{done, Result, Action, pure}
use rx_rust.Reactive.{Subscriber, default_on_subscribe, default_on_complete}
use rx_rust.Reactive.Stages.{through}
use rx_rust.Sendable.{Sendable}
use rx_rust.Processor.DoDebug.{DoDebug, do_debug_subscriber}
use rx_rust.Processor.DebugWhile.{DebugWhile, debug_while_subscriber}
use rx_rust.Processor.Do.{Do, do_subscriber}
use rx_rust.Processor.Map.{Map, map_subscriber}
use rx_rust.Processor.MapVal1.{MapVal1, map_val1_subscriber}
use rx_rust.Processor.Reduce.{Reduce, reduce_subscriber}
use rx_rust.Processor.Enumerate.{Enumerate, enumerate_subscriber}
use rx_rust.Processor.Tee.{Tee, tee_subscriber}
use rx_rust.Processor.Unzip.{Unzip, unzip_subscriber}
use rx_rust.Processor.Take.{Take, take_subscriber}
use rx_rust.Processor.Contract.{PassesOn}
use rx_rust.Processor.Contract.Stages.{stages-PassesOn}
use rx_rust.Processor.Contract.Chains.{Chain, end_, map, take, Reaches, Chain-Reaches}

abbrev Reports : Type 0
Reports = List String

-- A subscriber that counts the values and reports the errors.
abbrev reports : {I : Type 0} → Subscriber Reports ℕ I
reports = record {
  on_next = λ s x. pure (s, true);
  on_subscribe = default_on_subscribe;
  on_error = λ s e w. (done s, e ∷ w);
  on_complete = default_on_complete;
}

abbrev reporter : Subscriber Reports ℕ ℕ
reporter = reports

abbrev pair_reporter : Subscriber Reports ℕ (ℕ × ℕ)
pair_reporter = reports

abbrev queue : Sendable Reports ℕ ℕ
queue = record { send = λ q x. pure (Result.ok tt) }

abbrev println : ℕ → Action Reports (Unit {0})
println x = pure tt

stages-PassesOn_example :
    PassesOn reporter
      (do_debug_subscriber reporter println)
      (λ (m : DoDebug Reports ℕ ℕ). m.link)
      (λ m l. record m { link = l })
    × PassesOn reporter
        (debug_while_subscriber reporter println)
        (λ (m : DebugWhile Reports ℕ ℕ). m.link)
        (λ m l. record m { link = l })
    × PassesOn reporter
        (do_subscriber reporter)
        (λ (m : Do Reports ℕ ℕ). m.link)
        (λ m l. record m { link = l })
    × PassesOn reporter
        (map_subscriber reporter)
        (λ (m : Map Reports ℕ ℕ ℕ). m.link)
        (λ m l. record m { link = l })
    × PassesOn reporter
        (map_val1_subscriber reporter)
        (λ (m : MapVal1 Reports ℕ ℕ ℕ ℕ). m.link)
        (λ m l. record m { link = l })
    × PassesOn reporter
        (reduce_subscriber reporter)
        (λ (m : Reduce Reports ℕ ℕ ℕ ℕ). m.link)
        (λ m l. record m { link = l })
    × PassesOn pair_reporter
        (enumerate_subscriber pair_reporter)
        (λ (m : Enumerate Reports ℕ ℕ). m.link)
        (λ m l. record m { link = l })
    × PassesOn reporter
        (tee_subscriber reporter queue)
        (λ (m : Tee Reports ℕ ℕ ℕ). m.link)
        (λ m l. record m { link = l })
    × PassesOn reporter
        (unzip_subscriber reporter)
        (λ (m : Unzip Reports ℕ ℕ). m.link)
        (λ m l. record m { link = l })
    × PassesOn reporter
        (take_subscriber reporter)
        (λ (m : Take Reports ℕ ℕ). m.link)
        (λ m l. record m { link = l })
stages-PassesOn_example = stages-PassesOn reporter reporter pair_reporter queue println

-- A `Take` in front of a `Map`.
abbrev inner : Map Reports ℕ ℕ ℕ
inner = record { fun = λ x. pure x; link = record { subscriber = some 6; index = some 0 } }

abbrev head : Take Reports (Map Reports ℕ ℕ ℕ) ℕ
head = record {
  count = 1;
  max = 5;
  notified = false;
  link = record { subscriber = some inner; index = some 0 };
}

abbrev seen : Take Reports (Map Reports ℕ ℕ ℕ) ℕ → Option ℕ
seen = through (λ m. m.link.subscriber) (through (λ m. m.link.subscriber) some)

two :
    Chain reporter
      (Take Reports (Map Reports ℕ ℕ ℕ) ℕ)
      ℕ
      (take_subscriber (map_subscriber reporter))
      seen
two = take (map end_)

Chain-Reaches_example :
    Reaches seen
      (λ s. (done s, "lost" ∷ []))
      []
      (some 6)
      ((take_subscriber (map_subscriber reporter)).on_error head "lost" [])
    × Reaches seen
        (λ s. (done s, []))
        []
        (some 6)
        ((take_subscriber (map_subscriber reporter)).on_complete head true [])
Chain-Reaches_example = Chain-Reaches reporter two head "lost" true []
