-- ===== src/Tests/Dialing.antt =====
-- Tests of netdial and netannounce on a machine whose state is the list of the open descriptors.
-- Connections to port 9 are refused, and port 80 is in use.
use libabhi.Base.{
  ℕ, suc, ◌≡◌, refl, ap, ◌∙◌, true, Option, none, some, List, [], ◌∷◌, arith, ◌==◌, if◌then◌else◌,
  length, not,
}
use libabhi.Calls.{Calls, gave, failed, econnrefused}
use libabhi.Net.Dial.{Sockets, netdial, netannounce}
use libabhi.Net.Tidy.{IsTidy, gives, Descriptors, KeepsOpen, netdial-IsTidy, netannounce-IsTidy}

abbrev Open : Type 0
Open = List ℕ

unfoldable pub without_first : ℕ → Open → Open
without_first fd [] = []
without_first fd (d ∷ ds) = let rest = without_first fd ds in if d == fd then ds else d ∷ rest

pub ==-self : (n : ℕ) → (n == n) ≡ true
==-self n = ground arith

pub without_first-head : (fd : ℕ) (s l : Open) → s ≡ fd ∷ l → without_first fd s ≡ l
unfolding without_first
without_first-head fd s l e = ap (without_first fd) e ∙ rw (==-self fd) refl

abbrev line : ℕ → Calls Open
line port = record {
  real_read = λ n s. (gave n, s);
  real_write = λ bytes s. (gave (length bytes), s);
  real_accept = λ s. (gave 0, s);
  real_connect = λ s. (if port == 9 then failed econnrefused else gave 0, s);
  fdwait = λ s. s;
  take_error = λ s. (0, s);
  peek_error = λ s. 0;
  fdnoblock = λ s. s;
  set_options = λ fd s. s;
  getpeername = λ s. (true, s);
  socket_error = λ s. (0, s);
}

abbrev machine : Sockets Open
machine = record {
  socket = λ stream s. (some (suc (length s)), suc (length s) ∷ s);
  get_type = λ fd s. (true, s);
  set_flag = λ fd s. s;
  bind = λ fd ip port s. (not (port == 80), s);
  listen = λ fd s. s;
  fdnoblock = λ fd s. s;
  close = without_first;
  htons = λ n. n;
  ntohs = λ n. n;
  calls = λ fd ip port. line port;
}

abbrev loopback : List ℕ → Option (List ℕ)
loopback name = some (127 ∷ 0 ∷ 0 ∷ 1 ∷ [])

keeps : (port : ℕ) → KeepsOpen (λ s. s) (line port)
keeps port = record {
  connects = λ s. refl;
  waits = λ s. refl;
  takes = λ s. refl;
  unblocks = λ s. refl;
  names = λ s. refl;
  errors = λ s. refl;
}

documented : Descriptors (λ s. s) machine
documented = record {
  opens = λ stream s. gives (suc (length s)) (suc (length s) ∷ s) refl;
  closes = without_first-head;
  types = λ fd s. refl;
  flags = λ fd s. refl;
  binds = λ fd ip port s. refl;
  listens = λ fd s. refl;
  unblocks = λ fd s. refl;
  calls = λ fd ip port. keeps port;
}

dialled : netdial machine loopback true [] 80 (1 ∷ []) ≡ (some 2, 2 ∷ 1 ∷ [])
unfolding netdial
dialled = refl

refused : netdial machine loopback true [] 9 (1 ∷ []) ≡ (none, 1 ∷ [])
unfolding netdial without_first
refused = refl

netdial-IsTidy_example : IsTidy (λ s. s) (1 ∷ []) (netdial machine loopback true [] 9 (1 ∷ []))
netdial-IsTidy_example = netdial-IsTidy (λ s. s) machine documented loopback true [] 9 (1 ∷ [])

netannounce-IsTidy_example :
    IsTidy (λ s. s) (1 ∷ []) (netannounce machine loopback true none 80 (1 ∷ []))
netannounce-IsTidy_example =
    netannounce-IsTidy (λ s. s) machine documented loopback true none 80 (1 ∷ [])
