-- ===== src/Runtime/Loop.antt =====
-- The loop of `TunnelManager::reconcile` in src/runtime.rs that starts what is missing among the
-- desired tunnels.
use mathlib.Core.Option.{some-injective}
use vorto.Prelude.{
  ℕ, ◌≡◌, sym, subst, ◌∙◌, inl, inr, Bool, true, false, none, some, [], ◌∷◌, arith, All,
  if◌then◌else◌,
}
use vorto.Text.{Text, Text-discrete}
use vorto.HashMap.{get, insert, get-insert, AreEntries, Hasher}
use vorto.Config.Tunnel.{TunnelConfig}
use vorto.Runtime.System.{Os, Rt, runs}
use vorto.Runtime.Tasks.{has}
use vorto.Runtime.Tunnel.{ActiveTunnel}
use vorto.Runtime.Manager.{Active, Desired, World, start_one, start_all}
use vorto.Runtime.Ownership.{Inv}
use vorto.Runtime.Starting.{Starts, start_one-Starts, KeepsRunning}

-- Every active tunnel is desired, with the settings that it has.
abbrev pub Fits : Desired → Active → Type 0
Fits desired m =
    (k : Text) (a : ActiveTunnel)
    → get Text-discrete k m ≡ some a
    → get Text-discrete k desired ≡ some a.spec

-- Every tunnel is active.
abbrev pub AllActive : Desired → Active → Type 0
AllActive es m = All (λ e. (a : ActiveTunnel) × (get Text-discrete e.0 m ≡ some a)) es

-- The entries of a map are still there.
abbrev pub KeepsEntries : Active → Active → Type 0
KeepsEntries m m' =
    (k : Text) (a : ActiveTunnel) → get Text-discrete k m ≡ some a → get Text-discrete k m' ≡ some a

module _ (H : Hasher) (O : Os) where
  -- Every task of every active tunnel runs.
  abbrev pub AllLive : World H O → Type 0
  AllLive w =
      (k : Text) (a : ActiveTunnel) (id : ℕ)
      → get Text-discrete k w.0 ≡ some a
      → has a.handles id ≡ true
      → runs O w.1 id ≡ true

  -- What the loop over the desired tunnels guarantees.
  pub record Loops (desired : Desired) (es : Desired) (w : World H O) (b : Bool)
      (r : Bool × World H O) : Type 0 where
    pub inv : Inv H O r.1
    pub fits : Fits desired (r.1).0
    pub entries : KeepsEntries w.0 (r.1).0
    pub running : KeepsRunning H O w.1 (r.1).1
    pub live : AllLive w → AllLive r.1
    pub complete : r.0 ≡ true → (b ≡ true) × AllActive es (r.1).0

  insert-Fits :
      (desired : Desired) (m : Active) (name : Text) (a : ActiveTunnel)
      → get Text-discrete name desired ≡ some a.spec
      → Fits desired m
      → Fits desired (insert Text-discrete name a m)
  insert-Fits desired m name a h f k b g = elim (Text-discrete k name) [
    | yes same ↦ ground (arith, get-insert Text-discrete name k a m)
    | no ne ↦ f k b (ground (arith, get-insert Text-discrete name k a m))
  ]

  insert-KeepsEntries :
      (m : Active) (name : Text) (a : ActiveTunnel)
      → get Text-discrete name m ≡ none
      → KeepsEntries m (insert Text-discrete name a m)
  insert-KeepsEntries m name a absent k b h = ground (arith, get-insert Text-discrete name k a m)

  insert-AllLive :
      (m : Active) (rt rt' : Rt O) (name : Text) (a : ActiveTunnel)
      → KeepsRunning H O rt rt'
      → ((id : ℕ) → has a.handles id ≡ true → runs O rt' id ≡ true)
      → AllLive (m, rt)
      → AllLive (insert Text-discrete name a m, rt')
  insert-AllLive m rt rt' name a running fresh l k b id h i = elim (Text-discrete k name) [
    | yes same ↦
        let e : a ≡ b = ground (arith, get-insert Text-discrete name k a m) in
        fresh id (subst (λ (x : ActiveTunnel). has x.handles id ≡ true) (sym e) i)
    | no ne ↦ running id (l k b id (ground (arith, get-insert Text-discrete name k a m)) i)
  ]

  -- One round, in the terms of the loop.
  pub record Round (desired : Desired) (name : Text) (w : World H O) (r : Bool × World H O)
      : Type 0 where
    pub inv : Inv H O r.1
    pub fits : Fits desired (r.1).0
    pub entries : KeepsEntries w.0 (r.1).0
    pub running : KeepsRunning H O w.1 (r.1).1
    pub live : AllLive w → AllLive r.1
    pub complete : r.0 ≡ true → (a : ActiveTunnel) × (get Text-discrete name (r.1).0 ≡ some a)

  round_of_Starts :
      (desired : Desired) (name : Text) (tunnel : TunnelConfig) (w : World H O)
      (r : Bool × World H O)
      → Inv H O w
      → Fits desired w.0
      → get Text-discrete name desired ≡ some tunnel
      → Starts H O name tunnel w r
      → Round desired name w r
  round_of_Starts desired name tunnel w r v f wanted (inl (a, there, same, e)) =
      subst (Round desired name w) (sym e) (record {
        inv = v;
        fits = f;
        entries = λ k b h. h;
        running = λ id h. h;
        live = λ l. l;
        complete = λ h. (a, there);
      })
  round_of_Starts desired name tunnel w (b, (m, rt)) v f wanted
        (inr (inl (a, absent, same, e, e', keeps, fresh, running))) =
      subst (λ n. Round desired name w (b, (n, rt))) (sym e')
        (record {
          inv = keeps v;
          fits = insert-Fits desired w.0 name a (ground (arith, wanted, same)) f;
          entries = insert-KeepsEntries w.0 name a absent;
          running = running;
          live = insert-AllLive w.0 w.1 rt name a running fresh;
          complete = λ h. (a, ground (arith, get-insert Text-discrete name name a w.0));
        })
  round_of_Starts desired name tunnel w (b, (m, rt)) v f wanted
        (inr (inr (absent, e, e', keeps, running))) =
      subst (λ n. Round desired name w (b, (n, rt))) (sym e')
        (record {
          inv = keeps v;
          fits = f;
          entries = λ k b h. h;
          running = running;
          live = λ l k b id h i. running id (l k b id h i);
          complete = λ h. absurd (ground arith);
        })

  pub start_one-Round :
      (desired : Desired) (name : Text) (tunnel : TunnelConfig) (w : World H O)
      → Inv H O w
      → Fits desired w.0
      → get Text-discrete name desired ≡ some tunnel
      → Round desired name w (start_one H O name tunnel w)
  start_one-Round desired name tunnel (m, rt) v f wanted =
      round_of_Starts desired name tunnel (m, rt) (start_one H O name tunnel (m, rt)) v f wanted
        (start_one-Starts H O name tunnel m rt v.below
          (λ a h. some-injective _ _ (sym (f name a h) ∙ wanted)))

  pub start_all-Loops :
      (desired es : Desired) (w : World H O) (b : Bool)
      → Inv H O w
      → Fits desired w.0
      → AreEntries Text-discrete desired es
      → Loops desired es w b (start_all H O es b w)
  unfolding start_all
  start_all-Loops desired [] w b v f h = record {
    inv = v;
    fits = f;
    entries = λ k a h. h;
    running = λ id h. h;
    live = λ l. l;
    complete = λ h. (h, tt);
  }
  start_all-Loops desired ((name, tunnel) ∷ es) w b v f (wanted, h) =
      let one = start_one-Round desired name tunnel w v f wanted in
      let w' = (start_one H O name tunnel w).1 in
      let b' = if (start_one H O name tunnel w).0 then b else false in
      let rest = start_all-Loops desired es w' b' one.inv one.fits h in
      record {
        inv = rest.inv;
        fits = rest.fits;
        entries = λ k a h. rest.entries k a (one.entries k a h);
        running = λ id h. rest.running id (one.running id h);
        live = λ l. rest.live (one.live l);
        complete = λ h.
            let done = rest.complete h in
            let started : (start_one H O name tunnel w).0 ≡ true = ground (arith, done.0) in
            let (a, there) = one.complete started in
            (ground (arith, done.0), ((a, rest.entries name a there), done.1));
      }
