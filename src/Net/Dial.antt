-- ===== src/Net/Dial.antt =====
-- netdial, netannounce and netaccept6 of libtask/net.c. The calls on sockets are parameters.
use libabhi.Base.{ℕ, Bool, Option, none, some, List, [], ◌∷◌, ◌==◌, if◌then◌else◌}
use libabhi.Calls.{Calls, returned, error, wrap_connect, wrap_accept}

-- socket and bind may fail. `get_type` says whether getsockopt(SO_TYPE) succeeds; `set_flag` is
-- setsockopt with SO_REUSEADDR or SO_BROADCAST. `calls` are the wrapped calls on a descriptor, for an
-- address and a port.
pub record Sockets (S : Type 0) : Type 0 where
  pub socket : (stream : Bool) → S → Option ℕ × S
  pub get_type : ℕ → S → Bool × S
  pub set_flag : ℕ → S → S
  pub bind : ℕ → (ip : List ℕ) → (port : ℕ) → S → Bool × S
  pub listen : ℕ → S → S
  pub fdnoblock : ℕ → S → S
  pub close : ℕ → S → S
  pub htons : ℕ → ℕ
  pub ntohs : ℕ → ℕ
  pub calls : ℕ → (ip : List ℕ) → (port : ℕ) → Calls S

abbrev any_address : List ℕ
any_address = 0 ∷ 0 ∷ 0 ∷ 0 ∷ []

module _ {S : Type 0} (k : Sockets S) (lookup : List ℕ → Option (List ℕ)) where
  -- A descriptor that does not come to be used is closed.
  unfoldable pub dial_socket : (istcp : Bool) → (ip : List ℕ) → (port fd : ℕ) → S → Option ℕ × S
  unfolding wrap_connect
  dial_socket istcp ip port fd s =
      let s₁ = k.fdnoblock fd s in
      let s₂ = if istcp then s₁ else k.set_flag fd s₁ in
      let (r, s₃) = wrap_connect (k.calls fd ip (k.htons port)) s₂ in
      elim r [ returned m ↦ (some fd, s₃) | error e ↦ (none, k.close fd s₃) ]

  -- netlookup of the server is `lookup`. The result is a descriptor, or `none` for -1.
  unfoldable pub netdial : (istcp : Bool) → (server : List ℕ) → (port : ℕ) → S → Option ℕ × S
  unfolding dial_socket
  netdial istcp server port s = elim (lookup server) [
    | none ↦ (none, s)
    | some ip ↦
        let (f, s₁) = k.socket istcp s in
        elim f [ none ↦ (none, s₁) | some fd ↦ dial_socket istcp ip port fd s₁ ]
  ]

  -- Without a server, or with "*", any address is meant.
  unfoldable pub announce_address : Option (List ℕ) → Option (List ℕ)
  announce_address none = some any_address
  announce_address (some []) = lookup []
  announce_address (some (c ∷ [])) = if c == b'*' then some any_address else lookup (c ∷ [])
  announce_address (some (c ∷ d ∷ ds)) = lookup (c ∷ d ∷ ds)

  unfoldable pub announce_socket : (istcp : Bool) → (ip : List ℕ) → (port fd : ℕ) → S → Option ℕ × S
  announce_socket istcp ip port fd s =
      let (typed, t) = k.get_type fd s in
      let s₁ = if istcp then (if typed then k.set_flag fd t else t) else s in
      let (bound, s₂) = k.bind fd ip (k.htons port) s₁ in
      let s₃ = if istcp then k.listen fd s₂ else s₂ in
      if bound then (some fd, k.fdnoblock fd s₃) else (none, k.close fd s₂)

  unfoldable pub netannounce :
      (istcp : Bool) → (server : Option (List ℕ)) → (port : ℕ) → S → Option ℕ × S
  unfolding announce_socket announce_address
  netannounce istcp server port s = elim (announce_address server) [
    | none ↦ (none, s)
    | some a ↦
        let (f, s₁) = k.socket istcp s in
        elim f [ none ↦ (none, s₁) | some fd ↦ announce_socket istcp a port fd s₁ ]
  ]

  -- netaccept6: `peer` is what accept fills in, the address as inet_ntop writes it, and the port. They
  -- are stored where the caller asks for them.
  unfoldable pub netaccept6 :
      (peer : S → List ℕ × ℕ) (want_address want_port : Bool)
      → ℕ
      → S
      → (Option ℕ × Option (List ℕ) × Option ℕ) × S
  netaccept6 peer want_address want_port fd s =
      let (r, s₁) = wrap_accept (k.calls fd any_address 0) s in
      let (address, port) = peer s₁ in
      elim r [
        | error e ↦ ((none, none, none), s₁)
        | returned cfd ↦ (
          (
            some cfd,
            if want_address then some address else none,
            if want_port then some (k.ntohs port) else none,
          ),
          s₁,
        )
      ]
