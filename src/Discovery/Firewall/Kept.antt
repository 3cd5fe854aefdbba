-- ===== src/Discovery/Firewall/Kept.antt =====
-- The rules of the firewall in sqrkal_discovery.cpp: every change of them returns, and touches only
-- the state of the discovery.
use dionysius.Common.{
  ℕ, List, Bool, true, false, Bool-cases, inl, inr, if◌then◌else◌, not, ◌&&◌, ◌==◌, pos, codes,
  refl,
}
use dionysius.World.{World, pure, ◌>>=◌, ◌>>◌, modify, ask}
use dionysius.World.Host.{Host}
use dionysius.World.Returns.{Returns, Returns-bind, Returns-gets, Returns-modify}
use dionysius.Discovery.State.{update_host, host_gets, ask_int}
use dionysius.Discovery.Firewall.{add_firewall_rule, change_rules, add_all_rules, is_ok}

module _ (P : World → Type 0)
    (keep : (w : World) (h : Host) (f : ℕ → ℕ) → P w → P (record w { host = h; answers = f })) where
  add_firewall_rule-returns :
      (rule : List ℕ) (w : World) → P w → Returns (add_firewall_rule rule w) (λ _ u. P u)
  unfolding add_firewall_rule ask_int update_host ask modify pure ◌>>=◌ ◌>>◌
  add_firewall_rule-returns rule w h = (_, _, refl, keep w _ _ h)

  change_rules-returns :
      (is_adding : Bool) (input output : List ℕ) (w : World)
      → P w
      → Returns (change_rules is_adding input output w) (λ _ u. P u)
  unfolding change_rules pure
  change_rules-returns is_adding input output w h =
      Returns-bind _ (add_firewall_rule _) _ (add_firewall_rule-returns _ w h) (λ first u k.
        elim (Bool-cases (not (is_ok first) && is_adding)) [
          | inl failed ↦ rw failed (_, u, refl, k)
          | inr added ↦ rw added (
              Returns-bind _ (add_firewall_rule _) _ (add_firewall_rule-returns _ u k)
                (λ second x q. elim (Bool-cases (not (is_ok second) && is_adding)) [
                  | inl failed ↦ rw failed (
                      Returns-bind _ (add_firewall_rule _) _ (add_firewall_rule-returns _ x q)
                        (λ _ y r. (_, y, refl, r)))
                  | inr both ↦ rw both (_, x, refl, q)
                ]))
        ])

  flushed :
      (is_adding : Bool) (w : World)
      → P w
      → Returns
          ((if is_adding then add_firewall_rule (codes " -F") else pure (pos 0)) w)
          (λ _ u. P u)
  unfolding pure
  flushed true w h = add_firewall_rule-returns (codes " -F") w h
  flushed false w h = (_, w, refl, h)

  pub add_all_rules-returns :
      (is_adding is_udp : Bool) (w : World)
      → P w
      → Returns (add_all_rules is_adding is_udp w) (λ _ u. P u)
  unfolding add_all_rules host_gets update_host pure
  add_all_rules-returns is_adding is_udp w h =
      Returns-gets _ _
        (elim (Bool-cases
          (is_adding && not ((if is_udp then w.host.udp_added else w.host.tcp_added) == 0))) [
            | inl done ↦ rw done (_, w, refl, h)
            | inr new ↦ rw new (
                Returns-bind _ (if is_adding then add_firewall_rule (codes " -F") else pure (pos 0))
                  _ (flushed is_adding w h)
                  (λ _ u k. Returns-gets _ _ (
                    Returns-bind _ (change_rules is_adding _ _) _
                      (change_rules-returns is_adding _ _ u k)
                      (λ changed x q. elim (Bool-cases (not changed)) [
                        | inl failed ↦ rw failed (_, x, refl, q)
                        | inr both ↦ rw both (Returns-modify _ _ (_, _, refl, keep x _ x.answers q))
                      ]))))
          ])
