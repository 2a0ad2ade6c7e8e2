-- ===== src/DriverTool/Ends.antt =====
-- How the driver ends: it never divides by zero, and it writes a line for each of its calls.
use driftstore.Prelude.{
  ℕ, zero, suc, ◌+◌, ◌%◌, get_elem?, ◌≡◌, ◌<◌, refl, pos, pos_part, Bool, false, ◌||◌, List, [],
  ◌∷◌, ◌++◌, none, some, arith, if◌then◌else◌, length, Bool-cases, Option-cases, inl, inr, true,
  map, sym, ap, ◌∙◌,
}
use driftstore.Text.{Text, codes}
use driftstore.Node.{PutRequest, PutResponse, GetResponse}
use driftstore.Cli.{is_empty}
use driftstore.Clock.{u64_mod}
use driftstore.DriftClient.{
  Client, Seeds, remember_put, put_attempts, client_put, get_attempts, client_get, request_of,
  any_alive, connect,
}
use driftstore.DriftClient.Contexts.{next_start-some}
use driftstore.Options.{Line, out, err, event, Ending, exits, terminates}
use driftstore.ClientTool.Plans.{count_out}
use driftstore.Options.Flags.{spell, settings_of}
use driftstore.DriverTool.Settings.{
  DriverSetting, driver_flag, driver_flags, settled, unreadable, eat_arguments-settled,
}
use driftstore.DriverTool.{
  DriverOptions, driver_defaults, eat_arguments, no_seeds, driver_usage, put_line, get_line, Ended,
  put_calls, drive, driver_run, driver_main,
}
use driftstore.DriverTool.Pings.{Pinged, any_alive-Pinged}

module _ {World : Type 0} (seeds : Seeds World) where
  put_attempts-seed_nodes :
      (req : PutRequest) (left first attempt : ℕ) (world : World) (c : Client)
      → (put_attempts seeds req first left attempt world c).1.seed_nodes ≡ c.seed_nodes
  unfolding put_attempts remember_put
  put_attempts-seed_nodes req zero first attempt world c = refl
  put_attempts-seed_nodes req (suc left) first attempt world c =
      elim (Option-cases (get_elem? c.seed_nodes ((first + attempt) % length c.seed_nodes))) [
        | inl beyond ↦ rw (beyond, put_attempts) refl
        | inr (addr, here) ↦ elim (Option-cases (seeds.seed_put addr req world).1) [
          | inl failed ↦
              rw (here, put_attempts, failed)
                (put_attempts-seed_nodes req left first (attempt + 1)
                  (seeds.seed_put addr req world).0 c)
          | inr (resp, ok) ↦ rw (here, put_attempts, ok) (put_kept resp)
        ]
      ]
    where
      put_kept : (resp : PutResponse) → (remember_put req.key resp c).seed_nodes ≡ c.seed_nodes
      put_kept resp = ground arith

  -- a client with a seed gets through a put, and keeps its seeds
  client_put-some :
      (key value : Text) (world : World) (c : Client)
      → 0 < length c.seed_nodes
      → (r : World × Client × PutResponse) × (client_put seeds key value world c ≡ some r)
        × (r.1.seed_nodes ≡ c.seed_nodes)
  unfolding client_put
  client_put-some key value world c filled =
      let first = c.calls_made % length c.seed_nodes in
      let moved : Client = record c { calls_made = (c.calls_made + 1) % u64_mod } in
      let req = request_of key value c in
      (
        put_attempts seeds req first (length c.seed_nodes) 0 world moved,
        rw (next_start-some c filled, client_put) refl,
        put_attempts-seed_nodes req (length c.seed_nodes) first 0 world moved,
      )

  client_get-some :
      (key : Text) (world : World) (c : Client)
      → 0 < length c.seed_nodes
      → (r : World × Client × GetResponse) × (client_get seeds key world c ≡ some r)
  unfolding client_get
  client_get-some key world c filled =
      let first = c.calls_made % length c.seed_nodes in
      let moved : Client = record c { calls_made = (c.calls_made + 1) % u64_mod } in
      (
        get_attempts seeds key first (length c.seed_nodes) 0 world moved,
        rw (next_start-some c filled, client_get) refl,
      )

  -- the puts go through, a line for each
  put_calls-some :
      (key value : Text) (left i : ℕ) (world : World) (c : Client)
      → 0 < length c.seed_nodes
      → (world' : World) × (c' : Client) × (lines : List Line) × (put_calls seeds key value left i
            world c
          ≡ some (world', c', lines))
        × (count_out lines ≡ left)
        × (c'.seed_nodes ≡ c.seed_nodes)
  unfolding put_calls count_out put_line
  put_calls-some key value zero i world c filled = (world, c, [], refl, refl, refl)
  put_calls-some key value (suc left) i world c filled =
      let ((world', c', result), put, kept) = client_put-some key value world c filled in
      let (world'', c'', lines, rest, many, same) =
        put_calls-some key value left (i + 1) world' c' (ground (arith, kept, filled)) in
      (world'', c'', put_line i result ∷ lines, ground (arith, put, rest), ap suc many, same ∙ kept)

count_out-append : (xs ys : List Line) → count_out (xs ++ ys) ≡ count_out xs + count_out ys
unfolding count_out
count_out-append [] ys = omega arith
count_out-append (out t ∷ xs) ys = omega (arith, count_out-append xs ys)
count_out-append (err t ∷ xs) ys = count_out-append xs ys
count_out-append (event e n t ∷ xs) ys = count_out-append xs ys

-- How many lines go to standard output and how the process ends, by whether some option has no
-- number, by the options, and by whether a seed answers a ping.
unfoldable pub driver_end : Bool → DriverOptions → Bool → ℕ × Ending
driver_end true o alive = (0, terminates)
driver_end false o alive =
    if no_seeds o.seeds || is_empty o.key
    then (0, exits (pos 1))
    else if alive
    then (pos_part o.calls + 2, exits (pos 0))
    else (1, exits (pos 1))

module _ {World : Type 0} (seeds : Seeds World) where
  drive-some :
      (o : DriverOptions) (world : World) (c : Client)
      → 0 < length c.seed_nodes
      → (r : Ended World) × (drive seeds o world c ≡ some r)
        × (count_out r.1 ≡ pos_part o.calls + 2)
        × (r.2 ≡ exits (pos 0))
  unfolding drive count_out get_line
  drive-some o world c filled =
      let (world', c', lines, puts, many, same) =
        put_calls-some seeds o.key o.value (pos_part o.calls) 0 world c filled in
      let ((world'', c'', result), gets) =
        client_get-some seeds o.key world' c' (ground (arith, same, filled)) in
      (
        (
          world'',
          out (codes "connect result=succeeded\n") ∷ lines ++ get_line result ∷ [],
          exits (pos 0),
        ),
        ground (arith, puts, gets),
        omega (arith, many, count_out-append lines (get_line result ∷ [])),
        refl,
      )

  -- the driver, once its options are read
  driver_run-some :
      (program : Text) (o : DriverOptions) (world : World)
      → (r : Ended World) × (driver_run seeds program o world ≡ some r)
        × ((count_out r.1, r.2) ≡ driver_end false o (any_alive seeds o.seeds world).1)
  unfolding driver_run driver_end connect count_out
  driver_run-some program o world = elim (Bool-cases (no_seeds o.seeds || is_empty o.key)) [
    | inl bad ↦ (
      (world, driver_usage program ∷ [], exits (pos 1)),
      rw (bad, driver_run) refl,
      rw (bad, driver_end) refl,
    )
    | inr good ↦ elim (Bool-cases (any_alive seeds o.seeds world).1) [
      | inl alive ↦
          let w = (any_alive seeds o.seeds world).0 in
          let c : Client = record { seed_nodes = o.seeds; calls_made = 0; last_context = [] } in
          let (r, ran, many, ended) = drive-some o w c (some_seed o.seeds (is_empty o.key) good) in
          (
            r,
            rw (good, driver_run, connect, alive) ran,
            rw (good, driver_end, alive) (ground (arith, many, ended)),
          )
      | inr dead ↦ (
        (
          (any_alive seeds o.seeds world).0,
          out (codes "connect result=failed\n") ∷ [],
          exits (pos 1),
        ),
        rw (good, driver_run, connect, dead) refl,
        rw (good, driver_end, dead) refl,
      )
    ]
  ]
    where
      some_seed : (ss : List Text) (b : Bool) → (no_seeds ss || b) ≡ false → 0 < length ss
      some_seed [] b h = absurd (let x : ⊥ = cc in x)
      some_seed (s ∷ ss) b h = omega arith

  driver_main-some :
      (program : Text) (arguments : List Text) (world : World) (broken : Bool) (o : DriverOptions)
      → eat_arguments arguments driver_defaults ≡ (if broken then none else some o)
      → (r : Ended World) × (driver_main seeds program arguments world ≡ some r)
        × ((count_out r.1, r.2) ≡ driver_end broken o (any_alive seeds o.seeds world).1)
  unfolding driver_main driver_end count_out
  driver_main-some program arguments world true o e =
      ((world, [], terminates), rw (e, driver_main) refl, refl)
  driver_main-some program arguments world false o e =
      let (r, ran, ends) = driver_run-some program o world in (r, rw (e, driver_main) ran, ends)

  -- The driver always ends, and never divides by zero in its client's rotation. Its arguments are
  -- flags with values and arguments that begin with no flag, which are passed over: `--seeds` adds
  -- the pieces of its value between commas, and each other flag sets its own option. Where some
  -- `--calls` has no number it ends by an exception; where there is no seed or no key it ends with 1
  -- and writes nothing to standard output; where none of its seeds, pinged one after the other,
  -- answers, it writes one line and ends with 1; and else it writes a line for each of its puts,
  -- none for a negative number of them, one for the connection and one for the get, and ends with 0,
  -- whatever the nodes answer.
  pub driver_main-Ends :
      (program : Text) (arguments : List Text) (world : World)
      → (xs : List DriverSetting) × (map (spell driver_flag driver_flags) xs ≡ arguments)
        × ((world' : World) × (alive : Bool) × Pinged seeds
              (settled xs driver_defaults).seeds
              world
              world'
              alive
            × ((r : Ended World) × (driver_main seeds program arguments world ≡ some r)
                × ((count_out r.1, r.2)
                    ≡ driver_end (unreadable xs) (settled xs driver_defaults) alive)))
  driver_main-Ends program arguments world =
      let (xs, spelled) = settings_of driver_flag driver_flags arguments in
      let o = settled xs driver_defaults in
      (
        xs,
        spelled,
        (
          (any_alive seeds o.seeds world).0,
          (any_alive seeds o.seeds world).1,
          any_alive-Pinged seeds o.seeds world,
          driver_main-some program arguments world (unreadable xs) o (
              ap (λ a. eat_arguments a driver_defaults) (sym spelled)
              ∙ eat_arguments-settled xs driver_defaults),
        ),
      )
