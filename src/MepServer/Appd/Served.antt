-- ===== src/MepServer/Appd/Served.antt =====
-- mepserver/common/appd/appd.go and mepserver/mm5/task/sync.go: the rules of a request that creates a
-- configuration come to the data plane.
