-- ===== src/Gpu/Nvidia/Sessions.antt =====
-- A provider as its users see it: a session with the library that is open until it is shut down.
use ttop_desk.Prelude.{◌≡◌, refl, ap, true, false, Option, none, some, arith, List, [], ◌∷◌}
use ttop_desk.Python.Exceptions.{Result, ok}
use ttop_desk.Python.Runtime.{Runtime}
use ttop_desk.Gpu.Nvidia.{
  Call, NvidiaNvmlProvider, GpuEntry, device_count, snapshot, shutdown, closed,
}

-- What a user of the provider asks for.
pub data Operation : Type 0 where
  ask shut : Operation

-- The two states of the contract.
pub data Session : Type 0 where
  opened ended : Session

module _ (F W : Type 0) ⦃n : Runtime F⦄ where
  -- A reply of `snapshot`; `shutdown` replies nothing.
  abbrev pub Reply : Type 0
  Reply = Option (Result (List (GpuEntry F)))

  -- One operation of the provider on the library's state.
  pub operate : Operation → NvidiaNvmlProvider W × W → Reply × NvidiaNvmlProvider W × W
  operate ask (p, w) = let (r, w') = snapshot p w in (some r, p, w')
  operate shut (p, w) = let (p', w') = shutdown p w in (none, p', w')

  pub operate_all :
      List Operation → NvidiaNvmlProvider W × W → List Reply × NvidiaNvmlProvider W × W
  operate_all [] (p, w) = ([], p, w)
  operate_all (o ∷ os) (p, w) =
      let (r, p', w') = operate o (p, w) in
      let (rs, q, v) = operate_all os (p', w') in (r ∷ rs, q, v)

  -- The contract: what a question answers, and what the shutdown does to the library, are those of
  -- an open session; after its end there is nothing to see, and the library is left alone.
  module _ (question : W → Result (List (GpuEntry F)) × W) (end_session : W → W) where
    pub promised : Operation → Session × W → Reply × Session × W
    promised ask (opened, w) = let (r, w') = question w in (some r, opened, w')
    promised shut (opened, w) = (none, ended, end_session w)
    promised ask (ended, w) = (some (ok []), ended, w)
    promised shut (ended, w) = (none, ended, w)

    pub promised_all : List Operation → Session × W → List Reply × Session × W
    promised_all [] (s, w) = ([], s, w)
    promised_all (o ∷ os) (s, w) =
        let (r, s', w') = promised o (s, w) in
        let (rs, t, v) = promised_all os (s', w') in (r ∷ rs, t, v)

  idle-ask :
      (q : NvidiaNvmlProvider W) (w : W)
      → q.initialized ≡ false
      → operate ask (q, w) ≡ (some (ok []), q, w)
  unfolding operate snapshot device_count
  idle-ask q w h = rw h refl

  idle-shut :
      (q : NvidiaNvmlProvider W) (w : W)
      → q.initialized ≡ false
      → operate shut (q, w) ≡ (none, q, w)
  unfolding operate shutdown
  idle-shut q w h = rw h refl

  ready-shut :
      (p : NvidiaNvmlProvider W) (f : Call W Unit) (w : W)
      → p.initialized ≡ true
      → p.shutdown_function ≡ some f
      → operate shut (p, w) ≡ (none, closed p, (f w).1)
  unfolding operate shutdown
  ready-shut p f w h e =
      let done : shutdown p w ≡ (closed p, (f w).1) = ground arith in
      ap (λ (r : NvidiaNvmlProvider W × W). (none, r.0, r.1)) done

  asked :
      (p : NvidiaNvmlProvider W) (w : W)
      → operate ask (p, w) ≡ (some (snapshot {F = F} p w).0, p, (snapshot {F = F} p w).1)
  unfolding operate
  asked p w = refl

  module _ (question : W → Result (List (GpuEntry F)) × W) (end_session : W → W) where
    -- The replies and the library's state are those of the contract.
    abbrev pub Refines : List Operation → NvidiaNvmlProvider W → Session → W → Type 0
    Refines os p s w =
        ((operate_all os (p, w)).0 ≡ (promised_all question end_session os (s, w)).0)
        × ((operate_all os (p, w)).2 ≡ (promised_all question end_session os (s, w)).2)

    idle-Refines :
        (os : List Operation) (q : NvidiaNvmlProvider W) (w : W)
        → q.initialized ≡ false
        → Refines os q ended w
    unfolding operate_all promised_all promised
    idle-Refines [] q w h = (refl, refl)
    idle-Refines (ask ∷ os) q w h =
        let (replies, library) = idle-Refines os q w h in
        rw (idle-ask q w h) (ap (◌∷◌ (some (ok []))) replies, library)
    idle-Refines (shut ∷ os) q w h =
        let (replies, library) = idle-Refines os q w h in
        rw (idle-shut q w h) (ap (◌∷◌ none) replies, library)

  -- A provider that is initialised and has its shutdown function keeps the contract of a session,
  -- over every sequence of snapshots and shutdowns: the replies and the library's state are those
  -- of an open session until the first shutdown; from then on snapshots are empty and the library
  -- is left alone.
  pub provider-Refines :
      (p : NvidiaNvmlProvider W) (f : Call W Unit) (os : List Operation) (w : W)
      → p.initialized ≡ true
      → p.shutdown_function ≡ some f
      → Refines (snapshot p) (λ v. (f v).1) os p opened w
  unfolding operate_all promised_all promised
  provider-Refines p f [] w h e = (refl, refl)
  provider-Refines p f (ask ∷ os) w h e =
      let (replies, library) = provider-Refines p f os (snapshot {F = F} p w).1 h e in
      rw (asked p w) (ap (◌∷◌ (some (snapshot {F = F} p w).0)) replies, library)
  provider-Refines p f (shut ∷ os) w h e =
      let (replies, library) =
        idle-Refines (snapshot p) (λ v. (f v).1) os (closed p) (f w).1 refl in
      rw (ready-shut p f w h e) (ap (◌∷◌ none) replies, library)
