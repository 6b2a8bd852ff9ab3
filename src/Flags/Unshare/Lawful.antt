-- ===== src/Flags/Unshare/Lawful.antt =====
-- Each of these flags has a bit of its own.
use flatimage.Base.{ℕ, ◌<◌, ◌*◌, ◌^◌, ◌≡◌, refl, true, some, arith, all as every, ◌==◌}
use flatimage.Flags
use flatimage.Flags.{is, find, member, keys_but_all}
use flatimage.Flags.Laws.{is_proper, FlagsetLaws}
use flatimage.Flags.Unshare.{Unshare, unshares_class, all, user, ipc, pid, net, uts, cgroup, none}

index : Unshare → ℕ
index all = 0
index none = 0
index user = 0
index ipc = 1
index pid = 2
index net = 3
index uts = 4
index cgroup = 5

index_fits : (flag : Unshare) → is_proper unshares_class flag ≡ true → index flag < 8 * 2
unfolding index
index_fits all h = omega arith
index_fits _ h = omega arith

index_eq :
    (a b : Unshare)
    → is_proper unshares_class a ≡ true
    → is_proper unshares_class b ≡ true
    → (index a == index b) ≡ is unshares_class b a
unfolding index
index_eq all b h k = cc
index_eq none b h k = cc
index_eq a all h k = cc
index_eq a none h k = cc
index_eq user user h k = refl
index_eq user _ h k = refl
index_eq ipc user h k = refl
index_eq ipc _ h k = refl
index_eq pid user h k = refl
index_eq pid _ h k = refl
index_eq net user h k = refl
index_eq net _ h k = refl
index_eq uts user h k = refl
index_eq uts _ h k = refl
index_eq cgroup user h k = refl
index_eq cgroup _ h k = refl

find_lem :
    (flag : Unshare)
    → is_proper unshares_class flag ≡ true
    → find unshares_class flag ≡ some (2 ^ index flag)
unfolding find index
find_lem all h = cc
find_lem none h = cc
find_lem _ h = refl

keys_all :
    (flag : Unshare)
    → is_proper unshares_class flag ≡ true
    → member unshares_class (keys_but_all unshares_class (Flags.Flagset.masks unshares_class)) flag
      ≡ true
unfolding keys_but_all
keys_all all h = cc
keys_all none h = cc
keys_all _ h = refl

keys_proper :
    every
      (is_proper unshares_class)
      (keys_but_all unshares_class (Flags.Flagset.masks unshares_class))
    ≡ true
unfolding keys_but_all
keys_proper = refl

pub unshares_class_laws : FlagsetLaws unshares_class
unshares_class_laws = record {
  index = index;
  index_fits = index_fits;
  index_eq = index_eq;
  find_lem = find_lem;
  size_lem = refl;
  keys_proper = keys_proper;
  keys_all = keys_all;
}
