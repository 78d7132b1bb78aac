-- ===== src/MeterId/Tests.antt =====
-- The ids of some labels.
use opticon.Prelude.{ℕ, ◌*◌, ◌^◌, ◌≡◌, refl, List, arith}
use opticon.Prelude.Text.{codes}
use opticon.MeterId.{makeid, id2str, make_chars, id_chars, last_used, idgetprefix}
use opticon.MeterId.Names.{is_kept, IsLabel, id2str-makeid}
use opticon.MeterId.Prefix.{idgetprefix-makeid}

abbrev top_pcpu : List ℕ
top_pcpu = codes "top/pcpu"

-- Upper case is folded, and the twelfth character is dropped.
id2str-folded : id2str (makeid (codes "Net/In_KbpsX") 0 0) ≡ codes "net/in_kbps"
unfolding id2str makeid make_chars id_chars last_used
id2str-folded = refl

top_pcpu-IsLabel : IsLabel top_pcpu
unfolding is_kept
top_pcpu-IsLabel = (refl, (refl, (refl, (refl, (refl, (refl, (refl, (refl, tt))))))))

id2str-makeid_example : id2str (makeid top_pcpu (1 * 2 ^ 62) 0) ≡ top_pcpu
id2str-makeid_example = id2str-makeid top_pcpu 1 0 top_pcpu-IsLabel (omega arith) (omega arith)

idgetprefix-makeid_example : idgetprefix (makeid top_pcpu (1 * 2 ^ 62) 0) ≡ makeid (codes "top") 0 0
idgetprefix-makeid_example =
    idgetprefix-makeid b't' (codes "op") (codes "pcpu") 1 0 top_pcpu-IsLabel
      (refl, (refl, (refl, tt))) (omega arith)
