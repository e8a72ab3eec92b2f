-- ===== src/Des/Small.antt =====
-- The two builds of DES (src/leo_des_crypto.c), with and without `SMALL`, agree.
use leo_net.Base.{ℕ, ◌<◌, ◌≡◌, ◌∙◌, refl, ap, []}
use leo_net.Base.Lists.{get_or, tabulate, get_or-tabulate}
use leo_net.Des.Boxes.{psboxes, sboxes, ptbl}
use leo_net.Des.{ps}

-- The macro `ps` of the build with `SMALL`: an S-box, then the permutation P.
unfoldable ps_small : ℕ → ℕ → ℕ
ps_small i j = get_or (get_or ptbl i []) (get_or (get_or sboxes i []) j 0) 0

psboxes-tabulate : psboxes ≡ tabulate 8 (λ i. tabulate 64 (ps_small i))
unfolding psboxes ps_small ptbl sboxes
psboxes-tabulate = refl

-- Each of the eight boxes gives at each of its 64 indices what the S-box and the permutation give
-- one after the other.
ps-ps_small : (i j : ℕ) → i < 8 → j < 64 → ps i j ≡ ps_small i j
unfolding ps
ps-ps_small i j hi hj =
    ap (λ t. get_or (get_or t i []) j 0) psboxes-tabulate
    ∙ (ap (λ t. get_or t j 0) (get_or-tabulate 8 (λ i. tabulate 64 (ps_small i)) i [] hi)
        ∙ get_or-tabulate 64 (ps_small i) j 0 hj)
