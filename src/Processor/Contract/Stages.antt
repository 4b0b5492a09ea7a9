-- ===== src/Processor/Contract/Stages.antt =====
-- Every processor passes the other signals on.
use rx_rust.Base.{ℕ, ◌≡◌, refl, Bool, true, none}
use rx_rust.Effect.{Action, OnDone-continue}
use rx_rust.Reactive.{Subscriber}
use rx_rust.Sendable.{Sendable}
use rx_rust.Processor.Contract.{PassesOn, macros-PassesOn}
use rx_rust.Processor.DoDebug
use rx_rust.Processor.DoDebug.{DoDebug, do_debug_subscriber}
use rx_rust.Processor.DebugWhile
use rx_rust.Processor.DebugWhile.{DebugWhile, debug_while_subscriber}
use rx_rust.Processor.Do
use rx_rust.Processor.Do.{Do, do_subscriber}
use rx_rust.Processor.Map
use rx_rust.Processor.Map.{Map, map_subscriber}
use rx_rust.Processor.MapVal1
use rx_rust.Processor.MapVal1.{MapVal1, map_val1_subscriber}
use rx_rust.Processor.Reduce
use rx_rust.Processor.Reduce.{Reduce, reduce_subscriber}
use rx_rust.Processor.Enumerate
use rx_rust.Processor.Enumerate.{Enumerate, enumerate_subscriber}
use rx_rust.Processor.Tee
use rx_rust.Processor.Tee.{Tee, tee_subscriber}
use rx_rust.Processor.Unzip
use rx_rust.Processor.Unzip.{Unzip, unzip_subscriber}
use rx_rust.Processor.Take
use rx_rust.Processor.Take.{Take, take_subscriber}

pub do_debug-PassesOn :
    {W S I : Type 0} (d : Subscriber W S I) (println : I → Action W (Unit {0}))
    → PassesOn d
        (do_debug_subscriber d println)
        (λ (m : DoDebug W S I). m.link)
        (λ m l. record m { link = l })
unfolding do_debug_subscriber DoDebug.on_next
do_debug-PassesOn {W} {S} {I} d println =
    macros-PassesOn d (do_debug_subscriber d println) (λ (m : DoDebug W S I). m.link)
      (λ m l. record m { link = l }) (λ m l. refl) (λ m e. refl) (λ m force. refl) (λ m index. refl)
      (λ m x w h. rw h (refl, refl))

pub debug_while-PassesOn :
    {W S I : Type 0} (d : Subscriber W S I) (println : I → Action W (Unit {0}))
    → PassesOn d
        (debug_while_subscriber d println)
        (λ (m : DebugWhile W S I). m.link)
        (λ m l. record m { link = l })
unfolding debug_while_subscriber DebugWhile.on_next
debug_while-PassesOn {W} {S} {I} d println =
    macros-PassesOn d (debug_while_subscriber d println) (λ (m : DebugWhile W S I). m.link)
      (λ m l. record m { link = l }) (λ m l. refl) (λ m e. refl) (λ m force. refl) (λ m index. refl)
      (λ m x w h. rw h (refl, refl))

pub do-PassesOn :
    {W S I : Type 0} (d : Subscriber W S I)
    → PassesOn d (do_subscriber d) (λ (m : Do W S I). m.link) (λ m l. record m { link = l })
unfolding do_subscriber Do.on_next
do-PassesOn {W} {S} {I} d =
    macros-PassesOn d (do_subscriber d) (λ (m : Do W S I). m.link) (λ m l. record m { link = l })
      (λ m l. refl) (λ m e. refl) (λ m force. refl) (λ m index. refl) (λ m x w h. rw h (refl, refl))

pub map-PassesOn :
    {W S I O : Type 0} (d : Subscriber W S O)
    → PassesOn d (map_subscriber d) (λ (m : Map W S I O). m.link) (λ m l. record m { link = l })
unfolding map_subscriber Map.on_next
map-PassesOn {W} {S} {I} {O} d =
    macros-PassesOn d (map_subscriber d) (λ (m : Map W S I O). m.link)
      (λ m l. record m { link = l }) (λ m l. refl) (λ m e. refl) (λ m force. refl) (λ m index. refl)
      (λ m x w h. rw h (refl, refl))

pub map_val1-PassesOn :
    {W S I V O : Type 0} (d : Subscriber W S O)
    → PassesOn d
        (map_val1_subscriber d)
        (λ (m : MapVal1 W S I V O). m.link)
        (λ m l. record m { link = l })
unfolding map_val1_subscriber MapVal1.on_next
map_val1-PassesOn {W} {S} {I} {V} {O} d =
    macros-PassesOn d (map_val1_subscriber d) (λ (m : MapVal1 W S I V O). m.link)
      (λ m l. record m { link = l }) (λ m l. refl) (λ m e. refl) (λ m force. refl) (λ m index. refl)
      (λ m x w h. rw h (refl, refl))

pub enumerate-PassesOn :
    {W S I : Type 0} (d : Subscriber W S (I × ℕ))
    → PassesOn d
        (enumerate_subscriber d)
        (λ (m : Enumerate W S I). m.link)
        (λ m l. record m { link = l })
unfolding enumerate_subscriber Enumerate.on_next
enumerate-PassesOn {W} {S} {I} d =
    macros-PassesOn d (enumerate_subscriber d) (λ (m : Enumerate W S I). m.link)
      (λ m l. record m { link = l }) (λ m l. refl) (λ m e. refl) (λ m force. refl) (λ m index. refl)
      (λ m x w h. rw h (refl, refl))

pub tee-PassesOn :
    {W S Q I : Type 0} (d : Subscriber W S I) (q : Sendable W Q I)
    → PassesOn d (tee_subscriber d q) (λ (m : Tee W S Q I). m.link) (λ m l. record m { link = l })
unfolding tee_subscriber Tee.on_next
tee-PassesOn {W} {S} {Q} {I} d q =
    macros-PassesOn d (tee_subscriber d q) (λ (m : Tee W S Q I). m.link)
      (λ m l. record m { link = l }) (λ m l. refl) (λ m e. refl) (λ m force. refl) (λ m index. refl)
      (λ m x w h. rw h (refl, refl))

pub unzip-PassesOn :
    {W S I : Type 0} (d : Subscriber W S I)
    → PassesOn d (unzip_subscriber d) (λ (m : Unzip W S I). m.link) (λ m l. record m { link = l })
unfolding unzip_subscriber Unzip.on_next
unzip-PassesOn {W} {S} {I} d =
    macros-PassesOn d (unzip_subscriber d) (λ (m : Unzip W S I). m.link)
      (λ m l. record m { link = l }) (λ m l. refl) (λ m e. refl) (λ m force. refl) (λ m index. refl)
      (λ m x w h. rw h (refl, refl))

pub take-PassesOn :
    {W S O : Type 0} (d : Subscriber W S O)
    → PassesOn d (take_subscriber d) (λ (m : Take W S O). m.link) (λ m l. record m { link = l })
unfolding take_subscriber Take.on_next
take-PassesOn {W} {S} {O} d =
    macros-PassesOn d (take_subscriber d) (λ (m : Take W S O). m.link)
      (λ m l. record m { link = l }) (λ m l. refl) (λ m e. refl) (λ m force. refl) (λ m index. refl)
      (λ m x w h. rw h (refl, refl))

pub reduce-PassesOn :
    {W S I V O : Type 0} (d : Subscriber W S O)
    → PassesOn d
        (reduce_subscriber d)
        (λ (m : Reduce W S I V O). m.link)
        (λ m l. record m { link = l })
unfolding reduce_subscriber Reduce.on_next Reduce.passed
reduce-PassesOn {W} {S} {I} {V} {O} d =
    macros-PassesOn d (reduce_subscriber d) (λ (m : Reduce W S I V O). m.link)
      (λ m l. record m { link = l }) (λ m l. refl) (λ m e. refl) (λ m force. refl) (λ m index. refl)
      (λ m x w h.
        OnDone-continue
          (λ (r : Reduce W S I V O × Bool). (r.1 ≡ true) × (r.0.link.subscriber ≡ none))
          (m.fun m.state x w) (λ a. Reduce.passed d (record m { state = a.0 }) a.1)
          (λ a w'. rw h (refl, h)))

module _ {W S S' S'' I O V Q : Type 0} (d : Subscriber W S O) (e : Subscriber W S' I)
    (f : Subscriber W S'' (I × ℕ)) (q : Sendable W Q I) (println : I → Action W (Unit {0})) where
  -- Each of the ten processors passes an error and the end of the stream to the subscriber that it
  -- holds, and leaves that subscriber as the call did. One that was given no subscriber panics at
  -- both, but drops the values, where its function does not panic, and answers that it wants more.
  -- A new index is stored, and nothing else of the processor or of the world changes.
  pub stages-PassesOn :
      PassesOn e
        (do_debug_subscriber e println)
        (λ (m : DoDebug W S' I). m.link)
        (λ m l. record m { link = l })
      × PassesOn e
          (debug_while_subscriber e println)
          (λ (m : DebugWhile W S' I). m.link)
          (λ m l. record m { link = l })
      × PassesOn e (do_subscriber e) (λ (m : Do W S' I). m.link) (λ m l. record m { link = l })
      × PassesOn d (map_subscriber d) (λ (m : Map W S I O). m.link) (λ m l. record m { link = l })
      × PassesOn d
          (map_val1_subscriber d)
          (λ (m : MapVal1 W S I V O). m.link)
          (λ m l. record m { link = l })
      × PassesOn d
          (reduce_subscriber d)
          (λ (m : Reduce W S I V O). m.link)
          (λ m l. record m { link = l })
      × PassesOn f
          (enumerate_subscriber f)
          (λ (m : Enumerate W S'' I). m.link)
          (λ m l. record m { link = l })
      × PassesOn e
          (tee_subscriber e q)
          (λ (m : Tee W S' Q I). m.link)
          (λ m l. record m { link = l })
      × PassesOn e
          (unzip_subscriber e)
          (λ (m : Unzip W S' I). m.link)
          (λ m l. record m { link = l })
      × PassesOn d (take_subscriber d) (λ (m : Take W S O). m.link) (λ m l. record m { link = l })
  stages-PassesOn = (
    do_debug-PassesOn e println,
    debug_while-PassesOn e println,
    do-PassesOn e,
    map-PassesOn d,
    map_val1-PassesOn d,
    reduce-PassesOn d,
    enumerate-PassesOn f,
    tee-PassesOn e q,
    unzip-PassesOn e,
    take-PassesOn d,
  )
