-- ===== src/Ir/Alias/Groups.antt =====
-- Equal texts of groups.
use tensor_torrent.Base.{◌≡◌, true, arith}
use tensor_torrent.Ir.{Group, storage, view, plain}
use tensor_torrent.Ir.Alias.{group_eq}

pub group_eq_refl : (g : Group) → group_eq g g ≡ true
unfolding group_eq
group_eq_refl (storage a) = ground arith
group_eq_refl (view g) = group_eq_refl g
group_eq_refl (plain a) = ground arith

pub group_eq→eq : (g h : Group) → group_eq g h ≡ true → g ≡ h
unfolding group_eq
group_eq→eq (storage a) (storage b) e = ground arith
group_eq→eq (view g) (view h) e = cc (group_eq→eq g h e)
group_eq→eq (plain a) (plain b) e = ground arith
group_eq→eq g h e = cc
