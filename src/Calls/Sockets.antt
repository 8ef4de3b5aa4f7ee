-- ===== src/Calls/Sockets.antt =====
-- The wrappers of recv, send, recvfrom and sendto in libtask/fd.c, which warn that they are not to
-- be used. printf and the calls are parameters.
use libabhi.Base.{ℕ, zero, suc, ◌≡◌, refl, Outcome, err, no_fuel}
use libabhi.Base.Int.{ℤ}

module _ {S : Type 0} (printf : S → S) where
  unfoldable pub wrap_recv :
      (real_recv : (socket buffer length flags : ℕ) → S → ℤ × S)
      → (socket buffer length flags : ℕ) → S
      → ℤ × S
  wrap_recv real_recv socket buffer length flags s = real_recv socket buffer length flags (printf s)

  -- It calls __real_recv.
  unfoldable pub wrap_send :
      (real_recv : (socket buffer length flags : ℕ) → S → ℤ × S)
      → (socket buffer length flags : ℕ) → S
      → ℤ × S
  wrap_send real_recv socket buffer length flags s = real_recv socket buffer length flags (printf s)

  -- It calls itself; on fuel.
  unfoldable pub wrap_recvfrom :
      (fuel : ℕ) → (socket buffer length flags address address_len : ℕ) → S → Outcome (ℤ × S)
  wrap_recvfrom zero socket buffer length flags address address_len s = err no_fuel
  wrap_recvfrom (suc k) socket buffer length flags address address_len s =
      wrap_recvfrom k socket buffer length flags address address_len (printf s)

  unfoldable pub wrap_sendto :
      (real_sendto : (socket message length flags dest_addr dest_len : ℕ) → S → ℤ × S)
      → (socket message length flags dest_addr dest_len : ℕ) → S
      → ℤ × S
  wrap_sendto real_sendto socket message length flags dest_addr dest_len s =
      real_sendto socket message length flags dest_addr dest_len (printf s)

  -- However often __wrap_recvfrom is unfolded, it does not return.
  wrap_recvfrom_never :
      (fuel socket buffer length flags address address_len : ℕ) (s : S)
      → wrap_recvfrom fuel socket buffer length flags address address_len s ≡ err no_fuel
  unfolding wrap_recvfrom
  wrap_recvfrom_never zero socket buffer length flags address address_len s = refl
  wrap_recvfrom_never (suc k) socket buffer length flags address address_len s =
      wrap_recvfrom_never k socket buffer length flags address address_len (printf s)
