-- ===== src/Seed/Id.antt =====
-- The stable ids of the seed, each a UUID read as a number of 128 bits.
use argus_services.Prelude.{ℕ}

abbrev pub tenant : ℕ
tenant = 0x11111111111141118111111111111111

abbrev pub market : ℕ
market = 0x22222222222242228222222222222222

abbrev pub camera : ℕ
camera = 0x33333333333343338333333333333333

abbrev pub region : ℕ
region = 0x44444444444444448444444444444444

abbrev pub mode : ℕ
mode = 0x55555555555545558555555555555555

abbrev pub lens : ℕ
lens = 0x66666666666646668666666666666666

abbrev pub rule : ℕ
rule = 0x77777777777747778777777777777777

abbrev pub root_admin : ℕ
root_admin = 0x88888888888848888888888888888888

abbrev pub tenant_admin : ℕ
tenant_admin = 0x99999999999949998999999999999999

abbrev pub watcher : ℕ
watcher = 0xbbbbbbbbbbbb4bbb8bbbbbbbbbbbbbbb

abbrev pub notif : ℕ
notif = 0xaaaaaaaaaaaa4aaa8aaaaaaaaaaaaaaa
