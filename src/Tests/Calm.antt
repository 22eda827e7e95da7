-- ===== src/Tests/Calm.antt =====
-- Answers to the calls of `Os` that leave the world alone.
use mr_lib.Common.{◌≡◌, refl, true, false, none, some, []}
use mr_lib.Os.{Request, Reply}

abbrev pub calm : {W : Type 0} → (r : Request) → W → Reply r × W
calm (Request.read _ _) w = (none, w)
calm (Request.write _ _) w = (none, w)
calm (Request.malloc _) w = (some 1, w)
calm (Request.realloc _ _) w = (some 1, w)
calm (Request.strdup _) w = (some 1, w)
calm (Request.free _) w = (tt, w)
calm (Request.stat _) w = (none, w)
calm (Request.scandir _) w = (none, w)
calm (Request.fopen _ _) w = (some 1, w)
calm (Request.getline _ buffer) w = ((buffer, none), w)
calm (Request.ferror _) w = (false, w)
calm (Request.fwrite _ _ count _) w = (count, w)
calm (Request.sem_open _) w = (some 1, w)
calm (Request.sem_wait _) w = (true, w)
calm (Request.sem_post _) w = (true, w)
calm Request.time w = (some 0, w)
calm (Request.strftime _) w = (some [], w)
calm Request.getpid w = (1, w)
calm (Request.fprintf _ _ _) w = (true, w)
calm (Request.fputc _ _) w = (true, w)
calm (Request.fflush _) w = (true, w)
calm (Request.fclose _) w = (true, w)
calm (Request.sem_close _) w = (true, w)
calm (Request.sem_unlink _) w = (true, w)

pub calm-same : {W : Type 0} (r : Request) (w : W) → (calm r w).1 ≡ w
calm-same (Request.read _ _) w = refl
calm-same (Request.write _ _) w = refl
calm-same (Request.malloc _) w = refl
calm-same (Request.realloc _ _) w = refl
calm-same (Request.strdup _) w = refl
calm-same _ w = refl
