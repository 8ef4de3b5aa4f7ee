-- ===== src/Net/Tidy.antt =====
-- netdial and netannounce of libtask/net.c leave no descriptor open that they do not return.
use libabhi.Base.{
  ℕ, ◌≡◌, refl, ◌∙◌, Bool, true, false, Option, none, some, List, ◌∷◌, ◌==◌, ltb, if◌then◌else◌,
  Bool-cases, inl, inr,
}
use libabhi.Calls.{
  Calls, Answer, gave, again, failed, Result, returned, error, wrap_connect, connecting,
  einprogress,
}
use libabhi.Net.Dial.{Sockets, dial_socket, announce_socket, announce_address, netdial, netannounce}

-- What the code relies on: socket opens a descriptor, close closes it, and the other calls neither
-- open nor close one. `opened` are the descriptors that are open.
pub record KeepsOpen {S : Type 0} (opened : S → List ℕ) (c : Calls S) : Type 0 where
  pub connects : (s : S) → opened ((c.real_connect s).1) ≡ opened s
  pub waits : (s : S) → opened (c.fdwait s) ≡ opened s
  pub takes : (s : S) → opened ((c.take_error s).1) ≡ opened s
  pub unblocks : (s : S) → opened (c.fdnoblock s) ≡ opened s
  pub names : (s : S) → opened ((c.getpeername s).1) ≡ opened s
  pub errors : (s : S) → opened ((c.socket_error s).1) ≡ opened s

-- A call that may give a descriptor: if it does, that one is open besides those in `before`, and
-- otherwise no other.
pub data IsTidy {S : Type 0} (opened : S → List ℕ) (before : List ℕ) : Option ℕ × S → Type 0 where
  gives : (fd : ℕ) (s : S) → opened s ≡ fd ∷ before → IsTidy opened before (some fd, s)
  gives_none : (s : S) → opened s ≡ before → IsTidy opened before (none, s)

pub record Descriptors {S : Type 0} (opened : S → List ℕ) (k : Sockets S) : Type 0 where
  pub opens : (stream : Bool) (s : S) → IsTidy opened (opened s) (k.socket stream s)
  pub closes : (fd : ℕ) (s : S) (l : List ℕ) → opened s ≡ fd ∷ l → opened (k.close fd s) ≡ l
  pub types : (fd : ℕ) (s : S) → opened ((k.get_type fd s).1) ≡ opened s
  pub flags : (fd : ℕ) (s : S) → opened (k.set_flag fd s) ≡ opened s
  pub binds :
      (fd : ℕ) (ip : List ℕ) (port : ℕ) (s : S) → opened ((k.bind fd ip port s).1) ≡ opened s
  pub listens : (fd : ℕ) (s : S) → opened (k.listen fd s) ≡ opened s
  pub unblocks : (fd : ℕ) (s : S) → opened (k.fdnoblock fd s) ≡ opened s
  pub calls : (fd : ℕ) (ip : List ℕ) (port : ℕ) → KeepsOpen opened (k.calls fd ip port)

module _ {S : Type 0} (opened : S → List ℕ) where
  after_if :
      (b : Bool) (s t u : S)
      → opened s ≡ opened u
      → opened t ≡ opened u
      → opened (if b then s else t) ≡ opened u
  after_if true s t u e f = e
  after_if false s t u e f = f

  connecting-opened :
      (c : Calls S) → KeepsOpen opened c → (s : S) → opened ((connecting c s).1) ≡ opened s
  unfolding connecting
  connecting-opened c law s =
      let s₁ = c.fdwait s in
      let s₂ = (c.getpeername s₁).1 in
      let e₁ = law.waits s in
      let e₂ = law.names s₁ ∙ e₁ in
      let e₃ = law.errors s₂ ∙ e₂ in
      elim (Bool-cases (ltb 0 (c.peek_error s₁))) [
        | inl t ↦ rw t e₁
        | inr t ↦
            rw t (elim (Bool-cases ((c.getpeername s₁).0)) [ inl u ↦ rw u e₂ | inr u ↦ rw u e₃ ])
      ]

  wrap_connect-opened :
      (c : Calls S) → KeepsOpen opened c → (s : S) → opened ((wrap_connect c s).1) ≡ opened s
  unfolding wrap_connect
  wrap_connect-opened c law s =
      let s₀ = c.fdnoblock ((c.take_error s).1) in
      let r = c.real_connect s₀ in
      let e = law.connects s₀ ∙ law.unblocks ((c.take_error s).1) ∙ law.takes s in go (r.0) (r.1) e
    where
      go :
          (a : Answer) (s₁ : S)
          → opened s₁ ≡ opened s
          → opened (
              (elim a as (λ _. Result × S) [
                | gave m ↦ connecting c s₁
                | failed n ↦ if n == einprogress then connecting c s₁ else (error n, s₁)
                | again ↦ (error 11, s₁)
              ]).1)
            ≡ opened s
      go (gave m) s₁ e = connecting-opened c law s₁ ∙ e
      go (failed n) s₁ e = elim (Bool-cases (n == einprogress)) [
        | inl t ↦ rw t (connecting-opened c law s₁ ∙ e)
        | inr t ↦ rw t e
      ]
      go again s₁ e = e

module _ {S : Type 0} (opened : S → List ℕ) (k : Sockets S) (law : Descriptors opened k)
    (lookup : List ℕ → Option (List ℕ)) where
  dial_socket-IsTidy :
      (istcp : Bool) (ip : List ℕ) (port fd : ℕ) (l : List ℕ) (s : S)
      → opened s ≡ fd ∷ l
      → IsTidy opened l (dial_socket k lookup istcp ip port fd s)
  unfolding dial_socket
  dial_socket-IsTidy istcp ip port fd l s e =
      let s₁ = k.fdnoblock fd s in
      let s₂ = if istcp then s₁ else k.set_flag fd s₁ in
      let e₁ = law.unblocks fd s ∙ e in
      let e₂ = after_if opened istcp s₁ (k.set_flag fd s₁) s₁ refl (law.flags fd s₁) ∙ e₁ in
      let c = k.calls fd ip (k.htons port) in
      let e₃ = wrap_connect-opened opened c (law.calls fd ip (k.htons port)) s₂ ∙ e₂ in
      go ((wrap_connect c s₂).0) ((wrap_connect c s₂).1) e₃
    where
      go :
          (r : Result) (t : S)
          → opened t ≡ fd ∷ l
          → IsTidy opened l (elim r as (λ _. Option ℕ × S) [
            | returned m ↦ (some fd, t)
            | error n ↦ (none, k.close fd t)
          ])
      go (returned m) t f = gives fd t f
      go (error n) t f = gives_none (k.close fd t) (law.closes fd t l f)

  announce_socket-IsTidy :
      (istcp : Bool) (ip : List ℕ) (port fd : ℕ) (l : List ℕ) (s : S)
      → opened s ≡ fd ∷ l
      → IsTidy opened l (announce_socket k lookup istcp ip port fd s)
  unfolding announce_socket
  announce_socket-IsTidy istcp ip port fd l s e =
      let typed = (k.get_type fd s).0 in
      let t = (k.get_type fd s).1 in
      let u = if typed then k.set_flag fd t else t in
      let s₁ = if istcp then u else s in
      let e₀ = law.types fd s in
      let eᵤ = after_if opened typed (k.set_flag fd t) t t (law.flags fd t) refl ∙ e₀ in
      let e₁ = after_if opened istcp u s s eᵤ refl ∙ e in
      let b = k.bind fd ip (k.htons port) s₁ in
      let e₂ = law.binds fd ip (k.htons port) s₁ ∙ e₁ in
      let s₃ = if istcp then k.listen fd (b.1) else b.1 in
      let e₃ =
        after_if opened istcp (k.listen fd (b.1)) (b.1) (b.1) (law.listens fd (b.1)) refl ∙ e₂ in
      go (b.0) (b.1) s₃ e₂ e₃
    where
      go :
          (bound : Bool) (t u : S)
          → opened t ≡ fd ∷ l
          → opened u ≡ fd ∷ l
          → IsTidy opened l (if bound then (some fd, k.fdnoblock fd u) else (none, k.close fd t))
      go true t u f g = gives fd (k.fdnoblock fd u) (law.unblocks fd u ∙ g)
      go false t u f g = gives_none (k.close fd t) (law.closes fd t l f)

  -- A socket is made and used, or there is none.
  with_socket :
      (stream : Bool) (s : S) (use_it : ℕ → S → Option ℕ × S)
      → ((fd : ℕ) (t : S) → opened t ≡ fd ∷ opened s → IsTidy opened (opened s) (use_it fd t))
      → IsTidy opened (opened s) (elim ((k.socket stream s).0) [
        | none ↦ (none, (k.socket stream s).1)
        | some fd ↦ use_it fd ((k.socket stream s).1)
      ])
  with_socket stream s use_it h = go (k.socket stream s) (law.opens stream s)
    where
      go :
          (r : Option ℕ × S)
          → IsTidy opened (opened s) r
          → IsTidy opened (opened s) (elim (r.0) [ none ↦ (none, r.1) | some fd ↦ use_it fd (r.1) ])
      go _ (gives fd t f) = h fd t f
      go _ (gives_none t f) = gives_none t f

  -- When the calls open and close descriptors as documented, netdial leaves exactly one descriptor
  -- more open, the one that it returns, or, where it returns -1, exactly those open before.
  pub netdial-IsTidy :
      (istcp : Bool) (server : List ℕ) (port : ℕ) (s : S)
      → IsTidy opened (opened s) (netdial k lookup istcp server port s)
  unfolding netdial
  netdial-IsTidy istcp server port s = go (lookup server)
    where
      go :
          (a : Option (List ℕ))
          → IsTidy opened (opened s) (elim a as (λ _. Option ℕ × S) [
            | none ↦ (none, s)
            | some ip ↦ elim ((k.socket istcp s).0) as (λ _. Option ℕ × S) [
              | none ↦ (none, (k.socket istcp s).1)
              | some fd ↦ dial_socket k lookup istcp ip port fd ((k.socket istcp s).1)
            ]
          ])
      go none = gives_none s refl
      go (some ip) =
          with_socket istcp s (dial_socket k lookup istcp ip port)
            (λ fd t e. dial_socket-IsTidy istcp ip port fd (opened s) t e)

  -- When the calls open and close descriptors as documented, netannounce leaves exactly one descriptor
  -- more open, the one that it returns, or, where it returns -1, exactly those open before.
  pub netannounce-IsTidy :
      (istcp : Bool) (server : Option (List ℕ)) (port : ℕ) (s : S)
      → IsTidy opened (opened s) (netannounce k lookup istcp server port s)
  unfolding netannounce
  netannounce-IsTidy istcp server port s = go (announce_address k lookup server)
    where
      go :
          (a : Option (List ℕ))
          → IsTidy opened (opened s) (elim a as (λ _. Option ℕ × S) [
            | none ↦ (none, s)
            | some ip ↦ elim ((k.socket istcp s).0) as (λ _. Option ℕ × S) [
              | none ↦ (none, (k.socket istcp s).1)
              | some fd ↦ announce_socket k lookup istcp ip port fd ((k.socket istcp s).1)
            ]
          ])
      go none = gives_none s refl
      go (some ip) =
          with_socket istcp s (announce_socket k lookup istcp ip port)
            (λ fd t e. announce_socket-IsTidy istcp ip port fd (opened s) t e)
